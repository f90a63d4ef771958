-- ===== src/Welcome/Serves.antt =====
-- A scan against what it owes, and a scan that raises.
use mathlib.Core.Option.{some-injective}
use pelican_egg_dune_awakeni.Base.{
  ◌+◌, ◌≡◌, refl, sym, subst, ◌∙◌, ap, true, false, ◌||◌, Bool-cases, ◌⊎◌, inl, inr, List, [], ◌∷◌,
  Option, none, some, Text, is_some, length, if◌then◌else◌, arith,
}
use pelican_egg_dune_awakeni.Welcome.Package.{Item, Account}
use pelican_egg_dune_awakeni.Welcome.Scan.{
  Script, World, Counts, Visit, skip, grant, fail, tally, key_of, count_visit, scan_from, scan_once,
}
use pelican_egg_dune_awakeni.Welcome.Served.{
  has_key, keys_of, due, asked, each, serve, due_next, due_known,
}
use pelican_egg_dune_awakeni.Welcome.Store.{Key, same_key, same_key_iff, granted_exists}
use pelican_egg_dune_awakeni.Welcome.Visits.{
  Visited, blank, known, served, stopped, untold, visit-Visited,
}

-- The scan of accounts from counts `c` and a world `w` is that of the keys it owes: their items are
-- asked for, latest last, the keys with a row are those before it and those of the accounts, and the
-- counts say how many there were of each.
pub record Serves (items : List Item) (ks : List Key) (c : Counts) (w : World) (d : Counts)
    (u : World) : Type 0 where
  pub requested : asked u.trace ≡ serve items (due w.ledger ks) (asked w.trace)
  pub recorded : (k : Key) → granted_exists k u.ledger ≡ (granted_exists k w.ledger || has_key k ks)
  pub counted : d.granted + d.failed ≡ (c.granted + c.failed) + length (due w.ledger ks)
  pub passed : d.skipped + length (due w.ledger ks) ≡ c.skipped + length ks

module _ (items : List Item) (k : Key) (ks : List Key) (c : Counts) where
  Serves-known :
      (w : World) {d : Counts} {u : World}
      → granted_exists k w.ledger ≡ true
      → Serves items ks (tally skip c) w d u
      → Serves items (k ∷ ks) c w d u
  Serves-known w {d} {u} e s =
      let same = due_known w.ledger k ks e in
      record {
        requested = s.requested ∙ ap (λ x. serve items x (asked w.trace)) (sym same);
        recorded = λ j. s.recorded j ∙ known_key j;
        counted = s.counted ∙ ap (λ x. (c.granted + c.failed) + length x) (sym same);
        passed = rw same (ground (arith, s.passed));
      }
    where
      known_key :
          (j : Key)
          → (granted_exists j w.ledger || has_key j ks)
            ≡ (granted_exists j w.ledger || (same_key j k || has_key j ks))
      known_key j = elim (Bool-cases (same_key j k)) [
        | inl t ↦ rw (t, (same_key_iff j k).0 t, e) refl
        | inr t ↦ rw t refl
      ]

  Serves-next :
      (v : Visit) (w u : World) {d : Counts} {x : World}
      → granted_exists k w.ledger ≡ false
      → (v ≡ grant) ⊎ (v ≡ fail)
      → ((j : Key) → granted_exists j u.ledger ≡ (granted_exists j w.ledger || same_key j k))
      → asked u.trace ≡ each k items (asked w.trace)
      → Serves items ks (tally v c) u d x
      → Serves items (k ∷ ks) c w d x
  Serves-next v w u e which row run s =
      let next = due_next w.ledger u.ledger k ks e row in
      let one = tally-counts v which in
      record {
        requested = rw next (s.requested ∙ ap (serve items (due u.ledger ks)) run);
        recorded = λ j. s.recorded j ∙ ground (arith, row j);
        counted = rw next (ground (arith, s.counted, one));
        passed = rw next (ground (arith, s.passed, one));
      }
    where
      tally-counts :
          (v : Visit)
          → (v ≡ grant) ⊎ (v ≡ fail)
          → ((tally v c).granted + (tally v c).failed ≡ c.granted + c.failed + 1)
            × ((tally v c).skipped ≡ c.skipped)
      tally-counts v (inl h) = rw h (omega arith, refl)
      tally-counts v (inr h) = rw h (omega arith, refl)

module _ (script : Script) (message : Option (Text × Text)) (version : Text)
    (items : List Item) where
  visited-Serves :
      (a : Account) (later : List Account) (c : Counts) (w : World) (o : Option Visit) (u : World)
      {d : Counts}
      → Visited script message version items a w o u
      → ((c : Counts) (w : World) (d : Counts)
          → (scan_from script message version items later c w).0 ≡ some d
          → Serves items
              (keys_of version later)
              c
              w
              d
              (scan_from script message version items later c w).1)
      → (if is_some o
          then scan_from script message version items later
              (count_visit script message version items o c)
              u
          else (none, u)).0
        ≡ some d
      → Serves items
          (keys_of version (a ∷ later))
          c
          w
          d
          (if is_some o
            then scan_from script message version items later
                (count_visit script message version items o c)
                u
            else (none, u)).1
  visited-Serves a later c w o u (blank b) ih h = rw b (ih c w _ h)
  visited-Serves a later c w o u (known b e) ih h =
      rw b (Serves-known items (key_of version a) (keys_of version later) c w e (ih _ w _ h))
  visited-Serves a later c w o u (served {v = v} b e which row run) ih h = rw b (
      Serves-next items (key_of version a) (keys_of version later) c v w u e which row run
        (ih _ u _ h))
  visited-Serves a later c w o u (stopped b e same more) ih h = cc
  visited-Serves a later c w o u (untold b e row run raises) ih h = cc

  scan_from-Serves :
      (accounts : List Account) (c : Counts) (w : World) (d : Counts)
      → (scan_from script message version items accounts c w).0 ≡ some d
      → Serves items
          (keys_of version accounts)
          c
          w
          d
          (scan_from script message version items accounts c w).1
  unfolding scan_from
  scan_from-Serves [] c w d h =
      subst (λ e. Serves items [] c w e w) (some-injective _ _ h)
        (record {
          requested = refl;
          recorded = λ k. ground arith;
          counted = omega arith;
          passed = omega arith;
        })
  scan_from-Serves (a ∷ later) c w d h =
      visited-Serves a later c w _ _ (visit-Visited script message version items a w)
        (scan_from-Serves later) h

  -- A scan that raises no exception implements the abstract one on sets of keys: it asks for all
  -- items of each key of its accounts that has no row, each key once and in the order in which
  -- the keys first stand, and for nothing else; afterwards exactly the old keys and those of the
  -- accounts have rows, granted and failed ones add up to the number of keys served, and the
  -- skipped ones to the rest. Accounts with a blank name are left out.
  pub scan_once-Serves :
      (accounts : List Account) (w : World) {d : Counts}
      → (scan_once script message version items accounts w).0 ≡ some d
      → Serves items
          (keys_of version accounts)
          (record { granted = 0; failed = 0; skipped = 0 })
          w
          d
          (scan_once script message version items accounts w).1
  unfolding scan_once
  scan_once-Serves accounts w h = scan_from-Serves accounts _ w _ h
