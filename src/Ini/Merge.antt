-- ===== src/Ini/Merge.antt =====
-- The upserts and readers of scripts/admin_ini_merge.py. Each cuts its text into lines; an upsert puts
-- the lines that it writes together again.
use pelican_egg_dune_awakeni.Base.{
  ℕ, ◌==◌, Bool, true, false, not, ◌&&◌, ◌||◌, List, [], ◌∷◌, ◌++◌, map, Option, none, some, Text,
  text_eq, strip, is_space, is_empty, is_some, contains, if◌then◌else◌,
}
use pelican_egg_dune_awakeni.Ini.Cut.{cut, join}
use pelican_egg_dune_awakeni.Ini.Lines.{
  Line, keyed_value, signed_value, comment_or_space, any_sign, adding_sign, is_section,
  is_any_section, all_space,
}

abbrev pub written_line : Text → Line
written_line t = record { body = t; ending = 10 ∷ [] }

abbrev pub key_line : Text → Text → Line
key_line key value = written_line (key ++ 61 ∷ value)

abbrev pub header_line : Text → Line
header_line name = written_line (91 ∷ (name ++ 93 ∷ []))

abbrev pub ends_newline : Text → Bool
ends_newline [] = false
ends_newline (c ∷ []) = c == 10
ends_newline (c ∷ cs) = ends_newline cs

-- `ln if ln.endswith("\n") else ln + "\n"`
abbrev pub complete_line : Text → Line
complete_line t = record { body = t; ending = if ends_newline t then [] else 10 ∷ [] }

-- `if out and not out[-1].endswith("\n"): out.append("\n")`
unfoldable pub close_last : List Line → List Line
close_last [] = []
close_last (l ∷ []) =
    (if ends_newline l.ending then l else record l { ending = l.ending ++ 10 ∷ [] }) ∷ []
close_last (l ∷ m ∷ ls) = l ∷ close_last (m ∷ ls)

-- a block goes to the end, before a blank line that stands there
unfoldable pub inject : List Line → List Line → List Line
inject block [] = block
inject block (l ∷ []) = if all_space l.body then block ++ l ∷ [] else l ∷ block
inject block (l ∷ m ∷ ls) = l ∷ inject block (m ∷ ls)

pub record Merge : Type 0 where
  pub out : List Line
  pub in_target : Bool
  pub section_seen : Bool
  pub written : Bool

abbrev pub before : Merge
before = record { out = []; in_target = false; section_seen = false; written = false }

abbrev pub array_block : Text → List Text → List Line
array_block key [] = []
array_block key (v ∷ vs) = key_line (43 ∷ key) v ∷ array_block key vs

abbrev pub text_in : Text → List Text → Bool
text_in t [] = false
text_in t (u ∷ us) = text_eq t u || text_in t us

abbrev pub value_in : List Text → Option Text → Bool
value_in targets none = false
value_in targets (some v) = text_in (strip v) targets

abbrev pub first_value : Option Text → Option Text → Option Text
first_value none rest = rest
first_value (some v) rest = some (strip v)

abbrev pub add_value : Option Text → List Text → List Text
add_value none vs = vs
add_value (some v) vs = strip v ∷ vs

-- `",".join(vals) if vals else None`
abbrev pub joined : List Text → Option Text
joined [] = none
joined (v ∷ []) = some v
joined (v ∷ vs) = elim (joined vs) [ none ↦ some v | some t ↦ some (v ++ 44 ∷ t) ]

module _ (fold : ℕ → ℕ) (section : Text) where
  -- `matches` are the lines that are replaced, only the first one if `once`
  module _ (once : Bool) (matches : Text → Bool) (block : List Line) where
    abbrev pub leave : Line → Merge → Merge
    leave l s =
        if s.in_target && (not s.written && not (is_empty block))
        then record s { out = inject block s.out ++ l ∷ []; in_target = false; written = true }
        else record s { out = s.out ++ l ∷ []; in_target = false }

    abbrev pub replace : Merge → Merge
    replace s = if s.written then s else record s { out = s.out ++ block; written = true }

    unfoldable pub merge_line : Merge → Line → Merge
    merge_line s l =
        if is_section fold section l.body
        then record s { out = s.out ++ l ∷ []; in_target = true; section_seen = true }
        else if is_any_section l.body
        then leave l s
        else if s.in_target && (not (once && s.written) && matches l.body)
        then replace s
        else record s { out = s.out ++ l ∷ [] }

    unfoldable pub merge_lines : Merge → List Line → Merge
    merge_lines s [] = s
    merge_lines s (l ∷ ls) = merge_lines (merge_line s l) ls

  abbrev pub new_section : List Line → List Line → List Line
  new_section block out = close_last out ++ (written_line [] ∷ header_line section ∷ block)

  abbrev pub finish_keyed : List Line → Merge → List Line
  finish_keyed block s =
      if not s.section_seen
      then new_section block s.out
      else if not s.written
      then close_last s.out ++ block
      else s.out

  unfoldable pub keyed_lines : List Line → Text → Text → List Line
  keyed_lines lines key rendered =
      let block = key_line key rendered ∷ [] in
      finish_keyed block (
        merge_lines true (λ t. is_some (keyed_value comment_or_space fold key t)) block before
          lines)

  unfoldable pub upsert_keyed : Text → Text → Text → Text
  upsert_keyed text key rendered = join (keyed_lines (cut text) key rendered)

  abbrev pub finish_block : List Line → List Line → Merge → List Line
  finish_block lines block s =
      if not s.section_seen
      then (if is_empty block then lines else new_section block s.out)
      else if s.in_target && (not s.written && not (is_empty block))
      then close_last s.out ++ block
      else s.out

  unfoldable pub repeated_lines : List Line → Text → List Text → List Line
  repeated_lines lines key values =
      let block = array_block key values in
      finish_block lines block
        (merge_lines false (λ t. is_some (signed_value any_sign fold key t)) block before lines)

  unfoldable pub upsert_repeated : Text → Text → List Text → Text
  upsert_repeated text key values = join (repeated_lines (cut text) key values)

  unfoldable pub matched_lines : List Line → Text → List Text → List Text → List Line
  matched_lines lines key match_values new_lines =
      let block = map complete_line new_lines in
      finish_block lines block (
        merge_lines false (λ t. value_in match_values (signed_value any_sign fold key t)) block
          before lines)

  unfoldable pub upsert_matched : Text → Text → List Text → List Text → Text
  upsert_matched text key match_values new_lines =
      join (matched_lines (cut text) key match_values new_lines)

  abbrev pub target_next : Bool → Text → Bool
  target_next b t =
      if is_section fold section t then true else if is_any_section t then false else b

  abbrev pub is_plain : Text → Bool
  is_plain t = not (is_section fold section t || is_any_section t)

  unfoldable pub read_keyed_from : Text → Bool → List Line → Option Text
  read_keyed_from key b [] = none
  read_keyed_from key b (l ∷ ls) =
      let rest = read_keyed_from key (target_next b l.body) ls in
      if b && is_plain l.body then first_value (keyed_value is_space fold key l.body) rest else rest

  unfoldable pub read_keyed : Text → Text → Option Text
  read_keyed text key = read_keyed_from key false (cut text)

  -- the live values under the section, in the order of the lines
  unfoldable pub live_values : (Text → Option Text) → Bool → List Line → List Text
  live_values value b [] = []
  live_values value b (l ∷ ls) =
      let rest = live_values value (target_next b l.body) ls in
      if b && is_plain l.body then add_value (value l.body) rest else rest

  unfoldable pub read_repeated : Text → Text → Option Text
  read_repeated text key = joined (live_values (signed_value adding_sign fold key) false (cut text))

abbrev pub keep_line : Line → Option (List Line) → Option (List Line)
keep_line l none = none
keep_line l (some ls) = some (l ∷ ls)

-- `none` if no line has the key
unfoldable pub replace_first : (ℕ → ℕ) → Text → Line → List Line → Option (List Line)
replace_first fold key new [] = none
replace_first fold key new (l ∷ ls) =
    let rest = replace_first fold key new ls in
    if is_some (keyed_value comment_or_space fold key l.body)
    then some (new ∷ ls)
    else keep_line l rest

abbrev pub or_appended : Line → List Line → Option (List Line) → List Line
or_appended new lines none = close_last lines ++ new ∷ []
or_appended new lines (some ls) = ls

unfoldable pub flat_lines : (ℕ → ℕ) → List Line → Text → Text → List Line
flat_lines fold lines key value =
    let new = key_line key value in or_appended new lines (replace_first fold key new lines)

unfoldable pub upsert_flat : (ℕ → ℕ) → Text → Text → Text → Text
upsert_flat fold text key value = join (flat_lines fold (cut text) key value)

unfoldable pub read_flat_from : (ℕ → ℕ) → List Line → Text → Option Text
read_flat_from fold [] key = none
read_flat_from fold (l ∷ ls) key =
    let rest = read_flat_from fold ls key in first_value (keyed_value is_space fold key l.body) rest

unfoldable pub read_flat : (ℕ → ℕ) → Text → Text → Option Text
read_flat fold text key = read_flat_from fold (cut text) key

-- `none` rejects the value
unfoldable pub render_value : Text → Bool → Option Text
render_value raw quoted =
    if not quoted
    then some raw
    else if contains (34 ∷ []) raw
    then none
    else if is_empty raw
    then some []
    else some (34 ∷ (raw ++ 34 ∷ []))

-- what the environment has for the variable, and whether the setting may be empty
abbrev pub env_value_to_apply : Option Text → Bool → Option Text
env_value_to_apply none empty_ok = none
env_value_to_apply (some raw) empty_ok = if is_empty raw && not empty_ok then none else some raw
