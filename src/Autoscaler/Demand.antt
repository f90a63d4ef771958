-- ===== src/Autoscaler/Demand.antt =====
-- `parse_travel_demand`, `demand_for_map` and `parse_dim_rows`: what the autoscaler reads in texts.
-- `fold` is the case folding of `re.IGNORECASE`.
use pelican_egg_dune_awakeni.Base.{
  true, ℕ, ◌+◌, ◌-◌, ◌*◌, ◌==◌, Bool, not, ◌&&◌, ◌||◌, List, [], ◌∷◌, Option, none, some, Text,
  codes, strip, starts_with, is_space, is_empty, is_some, map, text_eq, leb, max, or_else,
  if◌then◌else◌,
}
use pelican_egg_dune_awakeni.Base.Int.{ℤ, pos_part}
use pelican_egg_dune_awakeni.Base.Numeral.{is_digit, int}
use pelican_egg_dune_awakeni.Autoscaler.Pool.{Dim}
use pelican_egg_dune_awakeni.Ini.Lines.{prefix_rest, or_first}

-- the dict from names to the peaks of their numbers
abbrev pub Demands : Type 0
Demands = List (Text × ℕ)

-- `out[name] = max(out.get(name, 0), num)`
unfoldable pub add_peak : Text → ℕ → Demands → Demands
add_peak name n [] = (name, n) ∷ []
add_peak name n ((m, k) ∷ ds) =
    let rest = add_peak name n ds in if text_eq m name then (m, max k n) ∷ ds else (m, k) ∷ rest

unfoldable pub demand_for_map : Demands → Text → ℕ
demand_for_map [] name = 0
demand_for_map ((m, k) ∷ ds) name =
    let rest = demand_for_map ds name in if text_eq m name then k else rest

-- `[A-Za-z0-9_]`
abbrev pub is_name : ℕ → Bool
is_name c = is_digit c || ((leb 65 c && leb c 90) || ((leb 97 c && leb c 122) || c == 95))

-- the longest run of characters at the front, and what follows
abbrev pub span : (ℕ → Bool) → Text → Text × Text
span p [] = ([], [])
span p (c ∷ cs) = let (front, rest) = span p cs in if p c then (c ∷ front, rest) else ([], c ∷ cs)

abbrev pub number_of : ℕ → Text → ℕ
number_of acc [] = acc
number_of acc (c ∷ cs) = number_of (acc * 10 + (c - 48)) cs

-- a run that is not empty
abbrev pub run_of : (ℕ → Bool) → Text → Option (Text × Text)
run_of p t = let (front, rest) = span p t in if is_empty front then none else some (front, rest)

module _ (fold : ℕ → ℕ) where
  -- `travel (?:queue|request) for `
  unfoldable pub starts_record : Text → Bool
  starts_record t =
      is_some (prefix_rest fold (codes "travel queue for ") t)
      || is_some (prefix_rest fold (codes "travel request for ") t)

  -- what stands before the first record, and the segments of the records
  abbrev pub cut : Text → Text × List Text
  cut [] = ([], [])
  cut (c ∷ cs) =
      let (front, segments) = cut cs in
      if starts_record (c ∷ cs) then ([], (c ∷ front) ∷ segments) else (c ∷ front, segments)

  abbrev pub lstrip_spaces : Text → Text
  lstrip_spaces t = (span is_space t).1

  -- `num[:=]\s*(\d+)` at the front
  abbrev pub num_here : Text → Option ℕ
  num_here t = elim (prefix_rest fold (codes "num") t) [
    | none ↦ none
    | some [] ↦ none
    | some (c ∷ cs) ↦
        if c == 58 || c == 61
        then elim (run_of is_digit (lstrip_spaces cs)) [
          | none ↦ none
          | some r ↦ some (number_of 0 r.0)
        ]
        else none
  ]

  unfoldable pub num_in : Text → Option ℕ
  num_in [] = none
  num_in (c ∷ cs) =
      let later = num_in cs in elim (num_here (c ∷ cs)) [ none ↦ later | some n ↦ some n ]

  abbrev pub name_after : Option Text → Option Text
  name_after none = none
  name_after (some t) = elim (run_of is_name t) [ none ↦ none | some r ↦ some r.0 ]

  abbrev pub group_name : Option Text → Option Text
  group_name none = none
  group_name (some t) =
      or_first (name_after (prefix_rest fold (codes "ClassicalInstancing group ") t))
        (name_after (some t))

  -- `^travel queue for (?:ClassicalInstancing group )?([A-Za-z0-9_]+)`
  abbrev pub queue_name : Text → Option Text
  queue_name t = group_name (prefix_rest fold (codes "travel queue for ") t)

  abbrev pub requested : Option (Text × Text) → Option (Text × ℕ)
  requested none = none
  requested (some r) = elim (name_after (prefix_rest fold (codes " player(s) to ") r.1)) [
    | none ↦ none
    | some name ↦ some (name, number_of 0 r.0)
  ]

  -- `^travel request for (\d+) player\(s\) to ([A-Za-z0-9_]+)`
  abbrev pub request : Text → Option (Text × ℕ)
  request t = elim (prefix_rest fold (codes "travel request for ") t) [
    | none ↦ none
    | some rest ↦ requested (run_of is_digit rest)
  ]

  unfoldable pub record_of : Text → Option (Text × ℕ)
  record_of t = elim (request t) [
    | some r ↦ some r
    | none ↦ elim (queue_name t) [ none ↦ none | some name ↦ some (name, or_else (num_in t) 0) ]
  ]

  abbrev pub add_record : Option (Text × ℕ) → Demands → Demands
  add_record none ds = ds
  add_record (some r) ds = add_peak r.0 r.1 ds

  unfoldable pub add_segments : List Text → Demands → Demands
  add_segments [] ds = ds
  add_segments (t ∷ ts) ds = add_segments ts (add_record (record_of t) ds)

  unfoldable pub add_lines : List Text → Demands → Demands
  add_lines [] ds = ds
  add_lines (l ∷ ls) ds = add_lines ls (add_segments (cut l).1 ds)

  unfoldable pub parse_travel_demand : List Text → Demands
  parse_travel_demand lines = add_lines lines []

abbrev pub with_head : ℕ → List Text → List Text
with_head c [] = (c ∷ []) ∷ []
with_head c (t ∷ ts) = (c ∷ t) ∷ ts

-- `split(mark, n)`
unfoldable pub split_at : ℕ → ℕ → Text → List Text
split_at mark n [] = [] ∷ []
split_at mark n (c ∷ cs) =
    let same = split_at mark n cs in
    let next = split_at mark (n - 1) cs in
    if c == mark && not (n == 0) then [] ∷ next else with_head c same

-- `isdigit`, on ASCII
abbrev pub all_digits : Text → Bool
all_digits [] = true
all_digits (c ∷ cs) = is_digit c && all_digits cs

abbrev pub is_number : Text → Bool
is_number t = not (is_empty t) && all_digits t

abbrev pub players_in : Option ℤ → ℕ
players_in none = 0
players_in (some n) = pos_part n

module _ (lower : ℕ → ℕ) where
  -- the first seven columns; the counts of the database are not negative
  abbrev pub dim_of : List Text → Option Dim
  dim_of (p0 ∷ p1 ∷ p2 ∷ p3 ∷ p4 ∷ p5 ∷ p6 ∷ rest) =
      let alive = text_eq (map lower (strip p5)) (codes "true") in
      if is_number (strip p0)
      then some (record {
        partition_id = number_of 0 (strip p0);
        online = alive;
        players = some (if alive then players_in (int p6) else 0);
      })
      else none
  dim_of _ = none

  unfoldable pub parse_dim_row : Text → Option Dim
  parse_dim_row line =
      let row = strip line in
      if is_empty row || starts_with (codes "partition_id") (map lower row)
      then none
      else dim_of (split_at 44 7 row)

  abbrev pub add_dim : Option Dim → List Dim → List Dim
  add_dim none ds = ds
  add_dim (some d) ds = d ∷ ds

  unfoldable pub parse_dim_rows : List Text → List Dim
  parse_dim_rows [] = []
  parse_dim_rows (l ∷ ls) = add_dim (parse_dim_row l) (parse_dim_rows ls)
