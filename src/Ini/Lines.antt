-- ===== src/Ini/Lines.antt =====
-- The regular expressions of scripts/admin_ini_merge.py on the body of a line. `fold` is the case
-- folding of `re.IGNORECASE`. A quantifier is greedy: the longest run of skipped characters first.
use pelican_egg_dune_awakeni.Base.{
  ℕ, ◌==◌, Bool, true, false, not, ◌&&◌, ◌||◌, [], ◌∷◌, Option, none, some, Text, is_space,
  if◌then◌else◌,
}

pub record Line : Type 0 where
  pub body : Text
  pub ending : Text

abbrev pub all_space : Text → Bool
all_space [] = true
all_space (c ∷ cs) = is_space c && all_space cs

abbrev pub or_first : Option Text → Option Text → Option Text
or_first none o = o
or_first (some t) o = some t

-- what follows a text that stands at the front, up to case
unfoldable pub prefix_rest : (ℕ → ℕ) → Text → Text → Option Text
prefix_rest fold [] t = some t
prefix_rest fold (k ∷ ks) [] = none
prefix_rest fold (k ∷ ks) (c ∷ cs) =
    let rest = prefix_rest fold ks cs in if fold k == fold c then rest else none

-- `\s*=(.*)`
unfoldable pub after_equals : Text → Option Text
after_equals [] = none
after_equals (c ∷ cs) =
    let rest = after_equals cs in if c == 61 then some cs else if is_space c then rest else none

abbrev pub then_equals : Option Text → Option Text
then_equals none = none
then_equals (some t) = after_equals t

-- `key\s*=(.*)`
abbrev pub after_key : (ℕ → ℕ) → Text → Text → Option Text
after_key fold key t = then_equals (prefix_rest fold key t)

-- `^[skip]*key\s*=(.*)`
unfoldable pub keyed_value : (ℕ → Bool) → (ℕ → ℕ) → Text → Text → Option Text
keyed_value skip fold key [] = after_key fold key []
keyed_value skip fold key (c ∷ cs) =
    let later = keyed_value skip fold key cs in
    or_first (if skip c then later else none) (after_key fold key (c ∷ cs))

-- `[sign]?key\s*=(.*)`
abbrev pub signed_key : (ℕ → Bool) → (ℕ → ℕ) → Text → Text → Option Text
signed_key sign fold key [] = after_key fold key []
signed_key sign fold key (c ∷ cs) =
    or_first (if sign c then after_key fold key cs else none) (after_key fold key (c ∷ cs))

-- `^\s*[sign]?key\s*=(.*)`
unfoldable pub signed_value : (ℕ → Bool) → (ℕ → ℕ) → Text → Text → Option Text
signed_value sign fold key [] = after_key fold key []
signed_value sign fold key (c ∷ cs) =
    let later = signed_value sign fold key cs in
    or_first (if is_space c then later else none) (signed_key sign fold key (c ∷ cs))

-- `[;\s]`
abbrev pub comment_or_space : ℕ → Bool
comment_or_space c = c == 59 || is_space c

-- `[-+.!]`
abbrev pub any_sign : ℕ → Bool
any_sign c = c == 45 || (c == 43 || (c == 46 || c == 33))

-- `[+.]`
abbrev pub adding_sign : ℕ → Bool
adding_sign c = c == 43 || c == 46

-- `\]\s*$`
abbrev pub closes : Option Text → Bool
closes none = false
closes (some []) = false
closes (some (c ∷ cs)) = c == 93 && all_space cs

-- `^\s*\[section\]\s*$`
unfoldable pub is_section : (ℕ → ℕ) → Text → Text → Bool
is_section fold name [] = false
is_section fold name (c ∷ cs) =
    let later = is_section fold name cs in
    (c == 91 && closes (prefix_rest fold name cs)) || (is_space c && later)

-- `[^\]]*\]\s*$`
abbrev pub runs_to_bracket : Text → Bool
runs_to_bracket [] = false
runs_to_bracket (c ∷ cs) = let later = runs_to_bracket cs in if c == 93 then all_space cs else later

abbrev pub names_section : Text → Bool
names_section [] = false
names_section (c ∷ cs) = not (c == 93) && runs_to_bracket cs

-- `^\s*\[[^\]]+\]\s*$`
unfoldable pub is_any_section : Text → Bool
is_any_section [] = false
is_any_section (c ∷ cs) =
    let later = is_any_section cs in (c == 91 && names_section cs) || (is_space c && later)
