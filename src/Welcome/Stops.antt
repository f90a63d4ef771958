-- ===== src/Welcome/Stops.antt =====
-- A scan that raises.
use pelican_egg_dune_awakeni.Base.{
  ◌≡◌, refl, subst, ◌∙◌, ap, false, inl, inr, List, [], ◌∷◌, ◌++◌, Option, none, some, Option-cases,
  Text, is_some, if◌then◌else◌,
}
use pelican_egg_dune_awakeni.Welcome.Package.{Item, Account}
use pelican_egg_dune_awakeni.Welcome.Scan.{
  Script, World, Counts, Visit, visit, key_of, count_visit, scan_from, scan_once, announce,
}
use pelican_egg_dune_awakeni.Welcome.Served.{asked, each}
use pelican_egg_dune_awakeni.Welcome.Store.{Key, granted_exists, record_granted}
use pelican_egg_dune_awakeni.Welcome.Visits.{
  Adds, Visited, blank, known, served, stopped, untold, visit-Visited,
}

module _ (script : Script) (message : Option (Text × Text)) (version : Text)
    (items : List Item) where
  -- how it stops at an account: without a row for it, when some of its items were asked for, or
  -- with all of them asked for and a granted row, by an announcement that raises
  pub data Stopped (k : Key) (w u : World) : Type 0 where
    owed :
        u.ledger ≡ w.ledger
        → granted_exists k u.ledger ≡ false
        → Adds k (asked u.trace) (asked w.trace)
        → Stopped k w u
    told :
        granted_exists k w.ledger ≡ false
        → u.ledger ≡ record_granted k w.ledger
        → asked u.trace ≡ each k items (asked w.trace)
        → (t : World) × (announce script message t ≡ (false, u))
        → Stopped k w u

  -- The accounts before the one at which the scan stops are settled, and nothing is asked for later
  -- ones.
  pub record Stops (accounts : List Account) (c : Counts) (w u : World) : Type 0 where
    pub before : List Account
    pub last : Account
    pub after : List Account
    pub counts : Counts
    pub split : accounts ≡ before ++ (last ∷ after)
    pub settled : (scan_from script message version items before c w).0 ≡ some counts
    pub stopped_at :
        Stopped (key_of version last) (scan_from script message version items before c w).1 u

  -- one visit before
  Stops-later :
      (a : Account) (later : List Account) (c : Counts) (w u : World) (v : Visit)
      → (visit script message version items a w).0 ≡ some v
      → Stops later
          (count_visit script message version items (some v) c)
          (visit script message version items a w).1
          u
      → Stops (a ∷ later) c w u
  unfolding scan_from
  Stops-later a later c w u v e s = record {
    before = a ∷ s.before;
    last = s.last;
    after = s.after;
    counts = s.counts;
    split = ap (λ l. a ∷ l) s.split;
    settled = rw e s.settled;
    stopped_at = rw e s.stopped_at;
  }

  stopped-Stops :
      (a : Account) (later : List Account) (c : Counts) (w : World) (o : Option Visit) (u : World)
      → Visited script message version items a w o u
      → o ≡ none
      → Stops (a ∷ later) c w u
  unfolding scan_from
  stopped-Stops a later c w o u (stopped b e same more) h = record {
    before = [];
    last = a;
    after = later;
    counts = c;
    split = refl;
    settled = refl;
    stopped_at = owed same (ap (granted_exists (key_of version a)) same ∙ e) more;
  }
  stopped-Stops a later c w o u (untold b e row run raises) h = record {
    before = [];
    last = a;
    after = later;
    counts = c;
    split = refl;
    settled = refl;
    stopped_at = told e row run raises;
  }
  stopped-Stops a later c w o u (blank b) h = cc
  stopped-Stops a later c w o u (known b e) h = cc
  stopped-Stops a later c w o u (served b e which row run) h = cc

  scan_from-Stops :
      (accounts : List Account) (c : Counts) (w : World)
      → (scan_from script message version items accounts c w).0 ≡ none
      → Stops accounts c w (scan_from script message version items accounts c w).1
  unfolding scan_from
  scan_from-Stops [] c w h = cc
  scan_from-Stops (a ∷ later) c w h =
      let r = visit script message version items a w in
      elim (Option-cases r.0) [
        | inl n ↦
            rw n
              (stopped-Stops a later c w r.0 r.1 (visit-Visited script message version items a w) n)
        | inr (v, e) ↦
            let raised =
              subst
                (λ o.
                  (if is_some o
                    then scan_from script message version items later
                        (count_visit script message version items o c) r.1
                    else (none, r.1)).0
                  ≡ none)
                e h in
            rw e (Stops-later a later c w _ v e (scan_from-Stops later _ r.1 raised))
      ]

  -- A scan that raises an exception stops at one of its accounts: the scan of the accounts before
  -- it raises none, and what is asked for beyond that scan is for this account alone. Either the
  -- ledger is as that scan leaves it, without a row for the account; or the account had no row,
  -- all its items are asked for in order, its row is recorded as granted, and the announcement
  -- raised.
  pub scan_once-Stops :
      (accounts : List Account) (w : World)
      → (scan_once script message version items accounts w).0 ≡ none
      → Stops accounts
          (record { granted = 0; failed = 0; skipped = 0 })
          w
          (scan_once script message version items accounts w).1
  unfolding scan_once
  scan_once-Stops accounts w h = scan_from-Stops accounts _ w h
