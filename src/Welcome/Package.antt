-- ===== src/Welcome/Package.antt =====
-- What the operator configures: `validate_items`, `active_package`, `render_announce`, and the reader
-- of the list of players.
use pelican_egg_dune_awakeni.Base.{
  ℕ, suc, ◌-◌, ◌==◌, Bool, false, not, ◌||◌, List, [], ◌∷◌, ◌++◌, Option, none, some, Text, codes,
  strip, split, starts_with, is_empty, map, text_eq, length, or_else, if◌then◌else◌,
}
use pelican_egg_dune_awakeni.Base.Int.{ℤ, pos}
use pelican_egg_dune_awakeni.Base.Json.{
  Json, null, integer, string, array, object, Items, nil, cons, Fields, get, get_or, truthy,
}
use pelican_egg_dune_awakeni.Autoscaler.Demand.{is_number, number_of}

-- `template` is `none` where it is no text, but has one as `str` shows it
pub record Item : Type 0 where
  pub template : Option Text
  pub qty : ℕ
  pub quality : ℕ

-- the items, a ValueError, or any other exception
pub data Checked : Type 0 where
  valid : List Item → Checked
  refused : Checked
  raised : Checked

abbrev pub text_of : Json → Option Text
text_of (string t) = some t
text_of _ = none

-- an int that is no bool and not negative
abbrev pub natural_of : Json → Option ℕ
natural_of (integer (pos n)) = some n
natural_of _ = none

abbrev pub item_from : Option Text → Option ℕ → Option ℕ → Option Item
item_from template (some (suc n)) (some quality) =
    some (record { template = template; qty = suc n; quality = quality })
item_from template _ _ = none

abbrev pub with_item : Option Item → Checked → Checked
with_item none rest = refused
with_item (some i) (valid is) = valid (i ∷ is)
with_item (some i) refused = refused
with_item (some i) raised = raised

-- `show` is `str` of what is no text
module _ (show : Json → Text) where
  abbrev pub str : Json → Text
  str (string t) = t
  str v = show v

  abbrev pub item_of : Fields → Option Item
  item_of f =
      let template = get_or (string []) (get (codes "template") f) in
      if is_empty (strip (str template))
      then none
      else item_from (text_of template) (natural_of (get_or null (get (codes "qty") f)))
          (natural_of (get_or (integer (pos 0)) (get (codes "quality") f)))

  unfoldable pub check_items : Items → Checked
  check_items nil = valid []
  check_items (cons (object f) xs) = with_item (item_of f) (check_items xs)
  check_items (cons x xs) = raised

  abbrev pub check_truthy : Json → Checked
  check_truthy (array xs) = check_items xs
  check_truthy v = raised

  unfoldable pub validate_items : Json → Checked
  validate_items v = if truthy v then check_truthy v else refused

pub record Account : Type 0 where
  pub fls : Text
  pub account_id : ℕ

module _ (lower : ℕ → ℕ) where
  abbrev pub account_of : List Text → Option Account
  account_of (a ∷ b ∷ rest) =
      if text_eq (map lower (strip a)) (codes "fls") || not (is_number (strip b))
      then none
      else some (record { fls = strip a; account_id = number_of 0 (strip b) })
  account_of _ = none

  unfoldable pub parse_account : Text → Option Account
  parse_account line =
      let row = strip line in if is_empty row then none else account_of (split 44 row)

  abbrev pub add_account : Option Account → List Account → List Account
  add_account none rest = rest
  add_account (some a) rest = a ∷ rest

  -- over the lines of the text
  unfoldable pub parse_accounts_csv : List Text → List Account
  parse_accounts_csv [] = []
  parse_accounts_csv (l ∷ ls) = add_account (parse_account l) (parse_accounts_csv ls)

-- an object that is not empty
pub record Package : Type 0 where
  pub version : Option Text
  -- `[]` where there is none
  pub items : Json

-- versions and announcements are texts here
pub record Config : Type 0 where
  pub enabled : Bool
  pub scan_interval_secs : Option ℤ
  pub active_version : Text
  pub packages : List Package
  pub announce : Bool
  pub announce_text : Text
  pub announce_title : Option Text

abbrev pub has_version : Text → Option Text → Bool
has_version v none = false
has_version v (some w) = text_eq w v

abbrev pub versioned : Text → List Package → Option Package
versioned v [] = none
versioned v (p ∷ ps) = let rest = versioned v ps in if has_version v p.version then some p else rest

abbrev pub or_head : Option Package → List Package → Option Package
or_head (some p) ps = some p
or_head none [] = none
or_head none (p ∷ ps) = some p

unfoldable pub active_package : Config → Option Package
active_package cfg = or_head (versioned cfg.active_version cfg.packages) cfg.packages

-- `t.replace(old, new)`, with what is still to be skipped of an occurrence; `old` is not empty
unfoldable pub replace_from : ℕ → Text → Text → Text → Text
replace_from skip old new [] = []
replace_from skip old new (c ∷ cs) =
    let skipped = replace_from (skip - 1) old new cs in
    let found = replace_from (length old - 1) old new cs in
    let kept = replace_from 0 old new cs in
    if not (skip == 0) then skipped else if starts_with old (c ∷ cs) then new ++ found else c ∷ kept

abbrev pub or_text : Text → Text → Text
or_text t u = if is_empty t then u else t

abbrev pub with_name : Text → Text → Text
with_name name t = replace_from 0 (codes "{name}") (or_text (strip name) (codes "A new player")) t

unfoldable pub render_announce : Config → Text → Option (Text × Text)
render_announce cfg name =
    let body = strip cfg.announce_text in
    let title =
      or_text (strip (or_else cfg.announce_title (codes "Welcome!"))) (codes "Welcome!") in
    if not cfg.announce || is_empty body
    then none
    else some (with_name name title, with_name name body)
