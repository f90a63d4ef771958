-- ===== src/Base/TableKeys.antt =====
-- Tables whose keys are distinct, as a primary key makes them.
use mathlib.Core.Bool.{Bool, true, false}
use mathlib.Core.List.{List, [], ◌∷◌}
use mathlib.Core.Logic.{inl, inr}
use mathlib.Core.Option.{some}
use mathlib.Core.Path.{◌≡◌, refl}
use package.pelican_egg_dune_awakeni.Base.Lists.{All}
use package.pelican_egg_dune_awakeni.Base.Table.{
  Eq, Table, find, upsert, update, keep, select, same_refl,
}
use package.pelican_egg_dune_awakeni.Base.Tests.{Bool-cases}

module _ {K : Type 0} ⦃e : Eq K⦄ where
  abbrev pub NoRepeat : List K → Type 0
  NoRepeat [] = Unit
  NoRepeat (k ∷ ks) = All (λ j. e.same k j ≡ false) ks × NoRepeat ks

module _ {K V : Type 0} ⦃e : Eq K⦄ where
  abbrev pub IsDistinct : Table K V → Type 0
  IsDistinct [] = Unit
  IsDistinct ((k, v) ∷ rows) = All (λ r. e.same k r.0 ≡ false) rows × IsDistinct rows

  upsert-All :
      (j k : K) (v : V) (f : V → V) (rows : Table K V)
      → e.same j k ≡ false
      → All (λ r. e.same j r.0 ≡ false) rows
      → All (λ r. e.same j r.0 ≡ false) (upsert k v f rows)
  unfolding upsert
  upsert-All j k v f [] h a = (h, tt)
  upsert-All j k v f ((i, u) ∷ rows) h (b, a) = elim (Bool-cases (e.same i k)) [
    | inl eq ↦ rw eq (b, a)
    | inr ne ↦ rw ne (b, upsert-All j k v f rows h a)
  ]

  update-All :
      (j k : K) (f : V → V) (rows : Table K V)
      → All (λ r. e.same j r.0 ≡ false) rows
      → All (λ r. e.same j r.0 ≡ false) (update k f rows)
  unfolding update
  update-All j k f [] a = tt
  update-All j k f ((i, u) ∷ rows) (b, a) = elim (Bool-cases (e.same i k)) [
    | inl eq ↦ rw eq (b, a)
    | inr ne ↦ rw ne (b, update-All j k f rows a)
  ]

  pub upsert-IsDistinct :
      (k : K) (v : V) (f : V → V) (rows : Table K V)
      → IsDistinct rows
      → IsDistinct (upsert k v f rows)
  unfolding upsert
  upsert-IsDistinct k v f [] d = (tt, tt)
  upsert-IsDistinct k v f ((i, u) ∷ rows) (a, d) = elim (Bool-cases (e.same i k)) [
    | inl eq ↦ rw eq (a, d)
    | inr ne ↦ rw ne (upsert-All i k v f rows ne a, upsert-IsDistinct k v f rows d)
  ]

  pub update-IsDistinct :
      (k : K) (f : V → V) (rows : Table K V) → IsDistinct rows → IsDistinct (update k f rows)
  unfolding update
  update-IsDistinct k f [] d = tt
  update-IsDistinct k f ((i, u) ∷ rows) (a, d) = elim (Bool-cases (e.same i k)) [
    | inl eq ↦ rw eq (a, d)
    | inr ne ↦ rw ne (update-All i k f rows a, update-IsDistinct k f rows d)
  ]

  keep-All :
      (j : K) (p : K → V → Bool) (rows : Table K V)
      → All (λ r. e.same j r.0 ≡ false) rows
      → All (λ r. e.same j r.0 ≡ false) (keep p rows)
  unfolding keep
  keep-All j p [] a = tt
  keep-All j p ((i, u) ∷ rows) (b, a) = elim (Bool-cases (p i u)) [
    | inl t ↦ rw t (b, keep-All j p rows a)
    | inr t ↦ rw t (keep-All j p rows a)
  ]

  pub keep-IsDistinct :
      (p : K → V → Bool) (rows : Table K V) → IsDistinct rows → IsDistinct (keep p rows)
  unfolding keep
  keep-IsDistinct p [] d = tt
  keep-IsDistinct p ((i, u) ∷ rows) (a, d) = elim (Bool-cases (p i u)) [
    | inl t ↦ rw t (keep-All i p rows a, keep-IsDistinct p rows d)
    | inr t ↦ rw t (keep-IsDistinct p rows d)
  ]

  select-ne :
      (j : K) (p : K → V → Bool) (rows : Table K V)
      → All (λ r. e.same j r.0 ≡ false) rows
      → All (λ k. e.same j k ≡ false) (select p rows)
  unfolding select
  select-ne j p [] a = tt
  select-ne j p ((i, u) ∷ rows) (b, a) = elim (Bool-cases (p i u)) [
    | inl t ↦ rw t (b, select-ne j p rows a)
    | inr t ↦ rw t (select-ne j p rows a)
  ]

  pub select-NoRepeat :
      (p : K → V → Bool) (rows : Table K V) → IsDistinct rows → NoRepeat (select p rows)
  unfolding select
  select-NoRepeat p [] d = tt
  select-NoRepeat p ((i, u) ∷ rows) (a, d) = elim (Bool-cases (p i u)) [
    | inl t ↦ rw t (select-ne i p rows a, select-NoRepeat p rows d)
    | inr t ↦ rw t (select-NoRepeat p rows d)
  ]

  abbrev pub Holds : (K → V → Bool) → Table K V → K → Type 0
  Holds p rows k = (v : V) × (find k rows ≡ some v) × (p k v ≡ true)

  select_later :
      (p : K → V → Bool) (i : K) (u : V) (rows : Table K V) (ks : List K)
      → All (λ k. e.same i k ≡ false) ks
      → All (Holds p rows) ks
      → All (Holds p ((i, u) ∷ rows)) ks
  unfolding find
  select_later p i u rows [] a h = tt
  select_later p i u rows (k ∷ ks) (b, a) ((v, at, t), h) =
      ((v, rw b at, t), select_later p i u rows ks a h)

  -- what is selected is what is found
  pub select-Holds :
      (p : K → V → Bool) (rows : Table K V) → IsDistinct rows → All (Holds p rows) (select p rows)
  unfolding select find
  select-Holds p [] d = tt
  select-Holds p ((i, u) ∷ rows) (a, d) =
      let later =
        select_later p i u rows (select p rows) (select-ne i p rows a) (select-Holds p rows d) in
      elim (Bool-cases (p i u)) [
        | inl t ↦ rw t ((u, rw (same_refl i) refl, t), later)
        | inr t ↦ rw t later
      ]
