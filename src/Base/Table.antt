-- ===== src/Base/Table.antt =====
-- A table of the scripts' databases: rows under a primary key, oldest first.
use mathlib.Core.Bool.{Bool, true, false}
use mathlib.Core.List.{List, [], ◌∷◌}
use mathlib.Core.Logic.{◌↔◌}
use mathlib.Core.Option.{Option, none, some}
use mathlib.Core.Path.{◌≡◌, refl}
use native.Mathlib.Omega.{arith}
use package.pelican_egg_dune_awakeni.Base.Tests.{if◌then◌else◌, is_some}
use package.pelican_egg_dune_awakeni.Base.Lists.{All}

-- a Boolean test that decides equality
pub record Eq (K : Type 0) : Type 0 where
  pub same : K → K → Bool
  pub same_iff : (a b : K) → (same a b ≡ true) ↔ (a ≡ b)

abbrev pub Table : Type 0 → Type 0 → Type 0
Table K V = List (K × V)

abbrev pub changed : {V : Type 0} → V → (V → V) → Option V → V
changed v f none = v
changed v f (some u) = f u

module _ {K V : Type 0} where
  -- `DELETE`: the rows that stay
  unfoldable pub keep : (K → V → Bool) → Table K V → Table K V
  keep p [] = []
  keep p ((k, v) ∷ rows) = let rest = keep p rows in if p k v then (k, v) ∷ rest else rest

  -- `UPDATE … WHERE`: `f` leaves the rows as they are that fail the condition
  unfoldable pub update_all : (K → V → V) → Table K V → Table K V
  update_all f [] = []
  update_all f ((k, v) ∷ rows) = (k, f k v) ∷ update_all f rows

  -- `SELECT key … WHERE`
  unfoldable pub select : (K → V → Bool) → Table K V → List K
  select p [] = []
  select p ((k, v) ∷ rows) = let rest = select p rows in if p k v then k ∷ rest else rest

module _ {K : Type 0} ⦃e : Eq K⦄ where
  pub same_refl : (k : K) → e.same k k ≡ true
  same_refl k = (e.same_iff k k).1 refl

  pub same_false : (j k : K) → e.same j k ≡ false → e.same k j ≡ false
  same_false j k h = ground (arith, e.same_iff j k, e.same_iff k j)

module _ {K V : Type 0} ⦃e : Eq K⦄ where
  -- `SELECT … WHERE key = k`
  unfoldable pub find : K → Table K V → Option V
  find k [] = none
  find k ((j, v) ∷ rows) = if e.same j k then some v else find k rows

  -- `INSERT … ON CONFLICT DO UPDATE`: the new row, or the change of the row that is there
  unfoldable pub upsert : K → V → (V → V) → Table K V → Table K V
  upsert k v f [] = (k, v) ∷ []
  upsert k v f ((j, u) ∷ rows) = if e.same j k then (j, f u) ∷ rows else (j, u) ∷ upsert k v f rows

  -- `INSERT … ON CONFLICT DO NOTHING`
  abbrev pub insert_or_ignore : K → V → Table K V → Table K V
  insert_or_ignore k v = upsert k v (λ u. u)

  -- `UPDATE … WHERE key = k`
  unfoldable pub update : K → (V → V) → Table K V → Table K V
  update k f [] = []
  update k f ((j, u) ∷ rows) = if e.same j k then (j, f u) ∷ rows else (j, u) ∷ update k f rows

  pub find-upsert_self :
      (k : K) (v : V) (f : V → V) (rows : Table K V)
      → find k (upsert k v f rows) ≡ some (changed v f (find k rows))
  unfolding find upsert
  find-upsert_self k v f [] = ground (arith, same_refl k)
  find-upsert_self k v f ((i, u) ∷ rows) = ground (arith, find-upsert_self k v f rows)

  pub find-upsert_ne :
      (j k : K) (v : V) (f : V → V) (rows : Table K V)
      → e.same k j ≡ false
      → find j (upsert k v f rows) ≡ find j rows
  unfolding find upsert
  find-upsert_ne j k v f [] h = ground arith
  find-upsert_ne j k v f ((i, u) ∷ rows) h =
      ground (arith, find-upsert_ne j k v f rows h, e.same_iff i k)

  pub find-update_self :
      (k : K) (f : V → V) (rows : Table K V) {u : V}
      → find k rows ≡ some u
      → find k (update k f rows) ≡ some (f u)
  unfolding find update
  find-update_self k f [] h = ground arith
  find-update_self k f ((i, v) ∷ rows) {u} h = ground (arith, find-update_self k f rows {u = u})

  pub find-update-none :
      (k : K) (f : V → V) (rows : Table K V) → find k rows ≡ none → find k (update k f rows) ≡ none
  unfolding find update
  find-update-none k f [] h = refl
  find-update-none k f ((i, v) ∷ rows) h = ground (arith, find-update-none k f rows)

  pub find-update_ne :
      (j k : K) (f : V → V) (rows : Table K V)
      → e.same k j ≡ false
      → find j (update k f rows) ≡ find j rows
  unfolding find update
  find-update_ne j k f [] h = refl
  find-update_ne j k f ((i, u) ∷ rows) h =
      ground (arith, find-update_ne j k f rows h, e.same_iff i k)

  pub find-update_all :
      (k : K) (f : K → V → V) (rows : Table K V) {u : V}
      → find k rows ≡ some u
      → find k (update_all f rows) ≡ some (f k u)
  unfolding find update_all
  find-update_all k f [] h = ground arith
  find-update_all k f ((i, v) ∷ rows) {u} h =
      ground (arith, find-update_all k f rows {u = u}, e.same_iff i k)

  -- a row that stays is found as before
  pub find-keep :
      (k : K) (p : K → V → Bool) (rows : Table K V) {u : V}
      → find k rows ≡ some u
      → p k u ≡ true
      → find k (keep p rows) ≡ some u
  unfolding find keep
  find-keep k p [] h t = ground arith
  find-keep k p ((i, v) ∷ rows) {u} h t = ground (arith, find-keep k p rows {u = u}, e.same_iff i k)

  pub is_some-update :
      (j k : K) (f : V → V) (rows : Table K V)
      → is_some (find j (update k f rows)) ≡ is_some (find j rows)
  unfolding find update
  is_some-update j k f [] = refl
  is_some-update j k f ((i, u) ∷ rows) = ground (arith, is_some-update j k f rows)

  pub is_some-upsert :
      (j k : K) (v : V) (f : V → V) (rows : Table K V)
      → is_some (find j rows) ≡ true
      → is_some (find j (upsert k v f rows)) ≡ true
  unfolding find upsert
  is_some-upsert j k v f [] h = ground arith
  is_some-upsert j k v f ((i, u) ∷ rows) h = ground (arith, is_some-upsert j k v f rows)

  -- the keys that are selected are found
  pub select-All :
      (p : K → V → Bool) (all rows : Table K V)
      → ((k : K) → is_some (find k rows) ≡ true → is_some (find k all) ≡ true)
      → All (λ k. is_some (find k all) ≡ true) (select p rows)
  unfolding find select
  select-All p all [] h = tt
  select-All p all ((i, u) ∷ rows) h =
      let here = h i (ground (arith, same_refl i)) in
      let later = select-All p all rows (λ k r. h k (ground (arith, r))) in ground arith

  pub find-update_all-none :
      (k : K) (f : K → V → V) (rows : Table K V)
      → find k rows ≡ none
      → find k (update_all f rows) ≡ none
  unfolding find update_all
  find-update_all-none k f [] h = refl
  find-update_all-none k f ((i, v) ∷ rows) h = ground (arith, find-update_all-none k f rows)

  -- where the test is on the key alone
  pub find-keep_key :
      (k : K) (q : K → Bool) (rows : Table K V)
      → find k (keep (λ i v. q i) rows) ≡ (if q k then find k rows else none)
  unfolding find keep
  find-keep_key k q [] = ground arith
  find-keep_key k q ((i, v) ∷ rows) = ground (arith, find-keep_key k q rows, e.same_iff i k)
