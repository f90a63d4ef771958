-- ===== src/Tests/Welcome.antt =====
-- A package of two items, two players in a list with a header, and a run that times out.
use pelican_egg_dune_awakeni.Base.{
  ℕ, false, ◌+◌, ◌≡◌, refl, true, ◌&&◌, List, [], ◌∷◌, Option, none, some, Text, codes, strip,
  lstrip, rstrip, is_space, text_eq, leb, split, contains, if◌then◌else◌,
}
use pelican_egg_dune_awakeni.Base.Int.{pos}
use pelican_egg_dune_awakeni.Base.Json.{
  Json, string, integer, array, object, nil, cons, end, field, get,
}
use pelican_egg_dune_awakeni.Base.Table.{find, upsert}
use pelican_egg_dune_awakeni.Welcome.Package.{
  Item, valid, Account, Config, check_items, validate_items, parse_account, parse_accounts_csv,
  active_package, replace_from, render_announce,
}
use pelican_egg_dune_awakeni.Welcome.Reach.{Reach, start, step, scans, tries, Reach-granted_once}
use pelican_egg_dune_awakeni.Welcome.Scan.{
  Script, gave, broadcast, Answer, finished, raised, World, Counts, grant_account, visit, scan_from,
  scan_once, run_scan, scan_loop_pass,
}
use pelican_egg_dune_awakeni.Welcome.Served.{asked, keys_of}
use pelican_egg_dune_awakeni.Welcome.Serves.{Serves, scan_once-Serves}
use pelican_egg_dune_awakeni.Welcome.Stops.{Stops, scan_once-Stops}
use pelican_egg_dune_awakeni.Welcome.Store.{Key, Key_Eq, granted, Row, Ledger}

abbrev lower : ℕ → ℕ
lower c = if leb 65 c && leb c 90 then c + 32 else c

abbrev show : Json → Text
show v = codes "None"

abbrev raw : Json
raw = array (
    cons
      (object (
        field (codes "template") (string (codes "Water"))
          (field (codes "qty") (integer (pos 3)) end)))
      (cons
        (object (
          field (codes "template") (string (codes "Knife")) (
            field (codes "quality") (integer (pos 2)) (field (codes "qty") (integer (pos 1)) end))))
        nil))

abbrev water : Item
water = record { template = some (codes "Water"); qty = 3; quality = 0 }

abbrev knife : Item
knife = record { template = some (codes "Knife"); qty = 1; quality = 2 }

items_run : validate_items show raw ≡ valid (water ∷ knife ∷ [])
unfolding validate_items check_items get strip lstrip rstrip is_space text_eq
items_run = refl

abbrev csv : List Text
csv = codes "fls,account_id" ∷ codes " ann , 7 " ∷ [] ∷ codes "bob" ∷ codes "cid,8,x" ∷ []

abbrev ann : Account
ann = record { fls = codes "ann"; account_id = 7 }

abbrev cid : Account
cid = record { fls = codes "cid"; account_id = 8 }

accounts_run : parse_accounts_csv lower csv ≡ ann ∷ cid ∷ []
unfolding parse_accounts_csv parse_account split strip lstrip rstrip is_space text_eq
accounts_run = refl

abbrev config : Config
config = record {
  enabled = true;
  scan_interval_secs = some (pos 5);
  active_version = codes "v9";
  packages = record { version = some (codes "v1"); items = raw } ∷ [];
  announce = true;
  announce_text = codes " Hi {name}! ";
  announce_title = none;
}

announce_run : render_announce config [] ≡ some (codes "Welcome!", codes "Hi A new player!")
unfolding render_announce replace_from strip lstrip rstrip is_space
announce_run = refl

abbrev start_world : World
start_world = record { ledger = []; trace = [] }

abbrev always : Script
always = record {
  gives = λ es fls it. finished true (codes "ok publish=ok");
  escapes = λ es title body. false;
}

abbrev ann_key : Key
ann_key = record { fls = codes "ann"; version = codes "v1"; account = 7 }

abbrev cid_key : Key
cid_key = record { fls = codes "cid"; version = codes "v1"; account = 8 }

abbrev served : Row
served = record { status = granted; attempts = 1; last_error = [] }

abbrev both_served : Ledger
both_served = (ann_key, served) ∷ (cid_key, served) ∷ []

abbrev after_scan : World
after_scan = (run_scan always show lower (some config) (some csv) start_world).1

-- the package whose version is active is missing, so that the first is taken
scan_run : after_scan.ledger ≡ both_served
unfolding run_scan active_package scan_once scan_from visit grant_account parse_accounts_csv
    parse_account validate_items check_items get render_announce replace_from split strip lstrip
    rstrip is_space text_eq find upsert contains
scan_run = refl

pass_run :
    (scan_loop_pass always show lower (some config) (some config) (some csv) start_world).0 ≡ 15
unfolding scan_loop_pass run_scan active_package scan_once scan_from visit grant_account
    parse_accounts_csv parse_account validate_items check_items get render_announce replace_from
    split strip lstrip rstrip is_space text_eq find upsert contains
pass_run = refl

-- the knife times out
abbrev timeout : ℕ → Answer
timeout n = if leb n 1 then raised else finished true (codes "publish=ok")

abbrev slow : Script
slow = record always {
  gives = λ es fls it.
      if text_eq fls (codes "ann") then timeout it.qty else finished true (codes "publish=ok");
}

-- the announcement holds a NUL, so that its run raises a ValueError
abbrev nul : Script
nul = record always { escapes = λ es title body. true }

-- the first player has a row, and the second one gets nothing
untold_run :
    scan_once nul (some (codes "Hi", 0 ∷ [])) (codes "v1") (water ∷ []) (ann ∷ cid ∷ []) start_world
    ≡ (
      none,
      record {
        ledger = (ann_key, served) ∷ [];
        trace = broadcast (codes "Hi") (0 ∷ []) ∷ gave (codes "ann") ann_key water ∷ [];
      },
    )
unfolding scan_once scan_from visit grant_account strip lstrip rstrip is_space text_eq find upsert
    contains
untold_run = refl

abbrev scan_slow : World → Option Counts × World
scan_slow = scan_once slow none (codes "v1") (water ∷ knife ∷ []) (ann ∷ cid ∷ [])

-- the first player gets the water in each scan, and the second one nothing
twice_run :
    asked (scan_slow (scan_slow start_world).1).1.trace
    ≡ (ann_key, knife) ∷ (ann_key, water) ∷ (ann_key, knife) ∷ (ann_key, water) ∷ []
unfolding scan_once scan_from visit grant_account strip lstrip rstrip is_space text_eq find upsert
    contains
twice_run = refl

scan_once-Serves_example :
    Serves
      (water ∷ [])
      (keys_of (codes "v1") (ann ∷ cid ∷ ann ∷ []))
      (record { granted = 0; failed = 0; skipped = 0 })
      start_world
      (record { granted = 2; failed = 0; skipped = 1 })
      (scan_once always none (codes "v1") (water ∷ []) (ann ∷ cid ∷ ann ∷ []) start_world).1
unfolding scan_once scan_from visit grant_account strip lstrip rstrip is_space text_eq find upsert
    contains
scan_once-Serves_example =
    scan_once-Serves always none (codes "v1") (water ∷ []) (ann ∷ cid ∷ ann ∷ []) start_world
      {d = record { granted = 2; failed = 0; skipped = 1 }} refl

scan_once-Stops_example :
    Stops slow none
      (codes "v1")
      (water ∷ knife ∷ [])
      (cid ∷ ann ∷ cid ∷ [])
      (record { granted = 0; failed = 0; skipped = 0 })
      start_world
      (scan_once slow none (codes "v1") (water ∷ knife ∷ []) (cid ∷ ann ∷ cid ∷ []) start_world).1
unfolding scan_once scan_from visit grant_account strip lstrip rstrip is_space text_eq find upsert
    contains
scan_once-Stops_example =
    scan_once-Stops slow none (codes "v1") (water ∷ knife ∷ []) (cid ∷ ann ∷ cid ∷ []) start_world
      refl

abbrev again : World
again = (run_scan always show lower (some config) (some csv) after_scan).1

reached : Reach after_scan again
reached = step start (scans always show lower (some config) (some csv))

Reach-granted_once_example :
    (find ann_key again.ledger ≡ some served)
    × (tries ann_key (asked again.trace) ≡ tries ann_key (asked after_scan.trace))
unfolding run_scan active_package scan_once scan_from visit grant_account parse_accounts_csv
    parse_account validate_items check_items get render_announce replace_from split strip lstrip
    rstrip is_space text_eq find upsert contains
Reach-granted_once_example =
    Reach-granted_once ann_key served {w = after_scan} {u = again} refl refl reached
