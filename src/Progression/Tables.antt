-- ===== src/Progression/Tables.antt =====
-- The tables of data/admin that scripts/admin_progression.py loads, and how it reads them.
use pelican_egg_dune_awakeni.Base.{
  ℕ, zero, suc, ◌+◌, ◌≤◌, ◌<◌, ◌≡◌, refl, List, [], ◌∷◌, Option, none, some, ◌==◌, String, All,
  if◌then◌else◌, length, arith,
}

-- a segment of the intel curve
pub record Segment : Type 0 where
  pub up_to : ℕ
  pub base : ℕ
  pub per_level_from : ℕ
  pub per_level : ℕ

pub record LevelTable : Type 0 where
  pub cumulative_xp : List ℕ
  pub max_char_xp : ℕ
  pub max_level : ℕ
  pub intel_segments : List Segment
  pub intel_cap_level : ℕ
  pub intel_cap_value : ℕ
  -- the dict from keystone id to skill points
  pub keystone_sp : List (ℕ × ℕ)

pub record FactionTable : Type 0 where
  pub rep_cap : ℕ
  pub tier_thresholds : List ℕ
  pub tier_names : List (ℕ × String)
  pub tier20_names : List (ℕ × String)
  pub faction_names : List (ℕ × String)

-- `table[i]`, `none` if it raises IndexError
abbrev pub get_elem? : List ℕ → ℕ → Option ℕ
get_elem? [] i = none
get_elem? (x ∷ xs) zero = some x
get_elem? (x ∷ xs) (suc i) = get_elem? xs i

-- `dict.get(key)`
abbrev pub lookup {ℓ} : {A : Type ℓ} → ℕ → List (ℕ × A) → Option A
lookup k [] = none
lookup k ((k', a) ∷ rest) = if k' == k then some a else lookup k rest

-- each entry is larger than all before it by at least `g`
abbrev pub Spread : ℕ → List ℕ → Type 0
Spread g [] = Unit
Spread g (x ∷ xs) = All (λ y. x + g ≤ y) xs × Spread g xs

pub get_elem?-length : (xs : List ℕ) (i : ℕ) → i < length xs → (v : ℕ) × (get_elem? xs i ≡ some v)
get_elem?-length [] i h = absurd (omega arith)
get_elem?-length (x ∷ xs) zero h = (x, refl)
get_elem?-length (x ∷ xs) (suc i) h = get_elem?-length xs i (omega arith)

pub length-get_elem? : (xs : List ℕ) (i : ℕ) {v : ℕ} → get_elem? xs i ≡ some v → i < length xs
length-get_elem? [] i e = ground arith
length-get_elem? (x ∷ xs) zero e = omega arith
length-get_elem? (x ∷ xs) (suc i) e = omega (arith, length-get_elem? xs i e)

All-get_elem? :
    (P : ℕ → Type 0) (xs : List ℕ) (i : ℕ) {v : ℕ} → All P xs → get_elem? xs i ≡ some v → P v
All-get_elem? P [] i h e = ground arith
All-get_elem? P (x ∷ xs) zero (p, h) e = ground arith
All-get_elem? P (x ∷ xs) (suc i) (p, h) e = All-get_elem? P xs i h e

pub get_elem?-Spread :
    (g : ℕ) (xs : List ℕ) (i j : ℕ) {v w : ℕ}
    → Spread g xs
    → i < j
    → get_elem? xs i ≡ some v
    → get_elem? xs j ≡ some w
    → v + g ≤ w
get_elem?-Spread g [] i j s h e f = ground arith
get_elem?-Spread g (x ∷ xs) i zero s h e f = absurd (omega arith)
get_elem?-Spread g (x ∷ xs) zero (suc j) {v} {w} (a, s) h e f =
    let le = All-get_elem? (λ y. x + g ≤ y) xs j {v = w} a f in ground arith
get_elem?-Spread g (x ∷ xs) (suc i) (suc j) (a, s) h e f =
    get_elem?-Spread g xs i j s (omega arith) e f
