-- ===== src/Welcome/Reach.antt =====
-- Any sequence of scans, also of such that raise, and of retries of failed grants.
use pelican_egg_dune_awakeni.Base.{
  ℕ, ◌+◌, ◌≡◌, refl, ◌∙◌, ap, not, Bool, true, false, Bool-cases, inl, inr, List, [], ◌∷◌, Option,
  none, some, Text, strip, is_empty, is_some, if◌then◌else◌, arith,
}
use pelican_egg_dune_awakeni.Base.Json.{Json}
use pelican_egg_dune_awakeni.Base.Table.{find, find-upsert_ne, find-keep}
use pelican_egg_dune_awakeni.Welcome.Package.{
  Item, Checked, valid, refused, raised, Account, Config, Package, validate_items,
  parse_accounts_csv, active_package, render_announce,
}
use pelican_egg_dune_awakeni.Welcome.Scan.{
  Script, World, Counts, settle, on_ledger, grant_account, visit, key_of, scan_from, scan_once,
  Report, disabled, run_scan, scan_active, scan_checked, scan_package,
}
use pelican_egg_dune_awakeni.Welcome.Served.{asked}
use pelican_egg_dune_awakeni.Welcome.Store.{
  Key, same_key, same_key_iff, Key_Eq, granted, failed, Row, granted_exists, again, record_granted,
  is_failed, delete_failed, delete_all_failed,
}
use pelican_egg_dune_awakeni.Welcome.Visits.{
  Adds, nothing, one_more, grant_account-Adds, grant_account-ledger, announce-ledger,
  announce-asked,
}

-- how often an item was asked for on behalf of a key
abbrev pub tries : Key → List (Key × Item) → ℕ
tries k [] = 0
tries k ((j, it) ∷ es) = let rest = tries k es in if same_key j k then rest + 1 else rest

Adds-tries :
    (j k : Key) {es fs : List (Key × Item)}
    → same_key j k ≡ false
    → Adds j fs es
    → tries k fs ≡ tries k es
Adds-tries j k d nothing = refl
Adds-tries j k d (one_more it a) = rw d (Adds-tries j k d a)

module _ (k : Key) (r : Row) (n : ℕ) where
  -- the row of a key, and the number of its runs
  pub record Kept (w : World) : Type 0 where
    pub row : find k w.ledger ≡ some r
    pub runs : tries k (asked w.trace) ≡ n

  settle-Kept :
      (script : Script) (message : Option (Text × Text)) (j : Key) (o : Option (List Text))
      (w : World)
      → same_key j k ≡ false
      → Kept w
      → Kept (settle script message j o w).1
  settle-Kept script message j none w d h = h
  settle-Kept script message j (some []) w d h =
      let u = on_ledger (record_granted j) w in
      record {
        row =
            ap (find k) (announce-ledger script message u)
            ∙ (find-upsert_ne k j (record { status = granted; attempts = 1; last_error = [] })
                  (again granted []) w.ledger d
                ∙ h.row);
        runs = ap (tries k) (announce-asked script message u) ∙ h.runs;
      }
  settle-Kept script message j (some (x ∷ xs)) w d h = record {
    row =
        find-upsert_ne k j (record { status = failed; attempts = 1; last_error = x ∷ xs })
          (again failed (x ∷ xs)) w.ledger d
        ∙ h.row;
    runs = h.runs;
  }

  -- a key with a row is another than one without
  other : (j : Key) (w : World) → granted_exists j w.ledger ≡ false → Kept w → same_key j k ≡ false
  other j w e h = elim (Bool-cases (same_key j k)) [
    | inl s ↦
        let found = ap is_some (ap (λ i. find i w.ledger) ((same_key_iff j k).0 s) ∙ h.row) in
        ground (arith, e, found)
    | inr d ↦ d
  ]

  module _ (script : Script) (message : Option (Text × Text)) (version : Text)
      (items : List Item) where
    visit-Kept :
        (a : Account) (w : World) → Kept w → Kept (visit script message version items a w).1
    unfolding visit
    visit-Kept a w h =
        let j = key_of version a in
        let g = grant_account script a.fls j items w in
        elim (Bool-cases (is_empty (strip a.fls))) [
          | inl b ↦ rw b h
          | inr b ↦ elim (Bool-cases (granted_exists j w.ledger)) [
            | inl e ↦ rw (b, e) h
            | inr e ↦
                let d = other j w e h in
                rw (b, e)
                  (settle-Kept script message j g.0 g.1 d (record {
                    row = ap (find k) (grant_account-ledger script a.fls j items w) ∙ h.row;
                    runs = Adds-tries j k d (grant_account-Adds script a.fls j items w) ∙ h.runs;
                  }))
          ]
        ]

    scan_from-Kept :
        (accounts : List Account) (c : Counts) (w : World)
        → Kept w
        → Kept (scan_from script message version items accounts c w).1
    unfolding scan_from
    scan_from-Kept [] c w h = h
    scan_from-Kept (a ∷ later) c w h =
        let r = visit script message version items a w in
        elim (Bool-cases (is_some r.0)) [
          | inl t ↦ rw t (scan_from-Kept later _ r.1 (visit-Kept a w h))
          | inr t ↦ rw t (visit-Kept a w h)
        ]

  module _ (script : Script) (show : Json → Text) (lower : ℕ → ℕ) (cfg : Config) where
    scan_package-Kept :
        (version : Option Text) (items : List Item) (csv : Option (List Text)) (w : World)
        → Kept w
        → Kept (scan_package script show lower cfg version items csv w).1
    unfolding scan_once
    scan_package-Kept version items none w h = h
    scan_package-Kept none items (some csv) w h = h
    scan_package-Kept (some version) items (some csv) w h =
        scan_from-Kept script (render_announce cfg []) version items (parse_accounts_csv lower csv)
          _ w h

    scan_checked-Kept :
        (version : Option Text) (items : Checked) (csv : Option (List Text)) (w : World)
        → Kept w
        → Kept (scan_checked script show lower cfg version items csv w).1
    scan_checked-Kept version (valid items) csv w h = scan_package-Kept version items csv w h
    scan_checked-Kept version refused csv w h = h
    scan_checked-Kept version raised csv w h = h

    scan_active-Kept :
        (p : Option Package) (csv : Option (List Text)) (w : World)
        → Kept w
        → Kept (scan_active script show lower cfg p csv w).1
    scan_active-Kept none csv w h = h
    scan_active-Kept (some p) csv w h =
        scan_checked-Kept p.version (validate_items show p.items) csv w h

  if-Kept :
      (b : Bool) (x y : Option Report × World) → Kept x.1 → Kept y.1 → Kept (if b then x else y).1
  if-Kept true x y h g = h
  if-Kept false x y h g = g

  run_scan-Kept :
      (script : Script) (show : Json → Text) (lower : ℕ → ℕ) (cfg : Option Config)
      (csv : Option (List Text)) (w : World)
      → Kept w
      → Kept (run_scan script show lower cfg csv w).1
  unfolding run_scan
  run_scan-Kept script show lower none csv w h = h
  run_scan-Kept script show lower (some cfg) csv w h =
      if-Kept (not cfg.enabled) (some disabled, w)
        (scan_active script show lower cfg (active_package cfg) csv w) h
        (scan_active-Kept script show lower cfg (active_package cfg) csv w h)

pub data Step (w : World) : World → Type 0 where
  scans :
      (script : Script) (show : Json → Text) (lower : ℕ → ℕ) (cfg : Option Config)
      (csv : Option (List Text))
      → Step w (run_scan script show lower cfg csv w).1
  retries_all : Step w (on_ledger (λ l. (delete_all_failed l).1) w)
  retries : (k : Key) → Step w (on_ledger (λ l. (delete_failed k l).1) w)

pub data Reach (w : World) : World → Type 0 where
  start : Reach w w
  step : {u v : World} → Reach w u → Step u v → Reach w v

module _ (k : Key) (r : Row) (n : ℕ) (g : r.status ≡ granted) where
  Step-Kept : {w u : World} → Step w u → Kept k r n w → Kept k r n u
  Step-Kept {w} (scans script show lower cfg csv) h =
      run_scan-Kept k r n script show lower cfg csv w h
  Step-Kept {w} retries_all h = record {
    row = find-keep k (λ j r. not (is_failed r)) w.ledger h.row (rw g refl);
    runs = h.runs;
  }
  Step-Kept {w} (retries j) h = record {
    row = find-keep k _ w.ledger h.row (rw g (ground arith));
    runs = h.runs;
  }

  Reach-Kept : {w u : World} → Reach w u → Kept k r n w → Kept k r n u
  Reach-Kept start h = h
  Reach-Kept (step p s) h = Step-Kept s (Reach-Kept p h)

-- Once the ledger holds a granted row for a player, version and account, this row stays as it is,
-- and no item is asked for on behalf of its key, over any scans, with any configurations, answers
-- and exceptions, and any retries of failed grants.
pub Reach-granted_once :
    (k : Key) (r : Row) {w u : World}
    → find k w.ledger ≡ some r
    → r.status ≡ granted
    → Reach w u
    → (find k u.ledger ≡ some r) × (tries k (asked u.trace) ≡ tries k (asked w.trace))
Reach-granted_once k r {w} h g p =
    let kept = Reach-Kept k r (tries k (asked w.trace)) g p (record { row = h; runs = refl }) in
    (kept.row, kept.runs)
