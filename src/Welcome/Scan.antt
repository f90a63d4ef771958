-- ===== src/Welcome/Scan.antt =====
-- `scan_once`, `grant_account`, `run_scan` and the `scan-loop` command. The answers of
-- admin-publish.sh are the parameter `Script`; they may depend on all that was done before.
use pelican_egg_dune_awakeni.Base.{
  ℕ, ◌+◌, Bool, true, not, ◌&&◌, ◌||◌, List, [], ◌∷◌, ◌++◌, Option, none, some, Text, codes, strip,
  contains, is_empty, is_some, length, max, if◌then◌else◌,
}
use pelican_egg_dune_awakeni.Base.Int.{ℤ, pos_part}
use pelican_egg_dune_awakeni.Base.Json.{Json}
use pelican_egg_dune_awakeni.Welcome.Package.{
  Item, Checked, valid, refused, Account, Config, Package, validate_items, parse_accounts_csv,
  active_package, render_announce,
}
use pelican_egg_dune_awakeni.Welcome.Package
use pelican_egg_dune_awakeni.Welcome.Store.{
  Key, Ledger, granted_exists, record_granted, record_failed,
}

-- Runs of admin-publish.sh: `give-item` to a player, with the key on whose behalf it is run kept
-- beside the call, and `broadcast`.
pub data Event : Type 0 where
  gave : Text → Key → Item → Event
  broadcast : Text → Text → Event

pub record World : Type 0 where
  pub ledger : Ledger
  pub trace : List Event

-- whether the exit code is 0, and the output; or an exception, as at the timeout
pub data Answer : Type 0 where
  finished : Bool → Text → Answer
  raised : Answer

-- `escapes`: whether a run of `broadcast` raises what `broadcast_welcome` does not catch, which is
-- all but an OSError and a SubprocessError, as a ValueError of a text with a NUL is
pub record Script : Type 0 where
  pub gives : List Event → Text → Item → Answer
  pub escapes : List Event → Text → Text → Bool

-- the failures that the run adds, `none` for an exception
abbrev pub reasons_of : Text → Answer → Option (List Text)
reasons_of template raised = none
reasons_of template (finished zero out) = some (
    if zero && (contains (codes "publish=db-write") out || contains (codes "publish=ok") out)
    then []
    else template ∷ [])

abbrev pub both : Option (List Text) → Option (List Text) → Option (List Text)
both none s = none
both (some r) none = none
both (some r) (some s) = some (r ++ s)

pub record Counts : Type 0 where
  pub granted : ℕ
  pub failed : ℕ
  pub skipped : ℕ

pub data Visit : Type 0 where
  ignored skip grant fail : Visit

abbrev pub tally : Visit → Counts → Counts
tally ignored c = c
tally skip c = record c { skipped = c.skipped + 1 }
tally grant c = record c { granted = c.granted + 1 }
tally fail c = record c { failed = c.failed + 1 }

abbrev pub on_ledger : (Ledger → Ledger) → World → World
on_ledger f w = record w { ledger = f w.ledger }

abbrev pub key_of : Text → Account → Key
key_of version a = record { fls = strip a.fls; version = version; account = a.account_id }

module _ (script : Script) where
  -- whether it comes back; the failures that are caught do not show
  abbrev pub announce : Option (Text × Text) → World → Bool × World
  announce none w = (true, w)
  announce (some m) w =
      (not (script.escapes w.trace m.0 m.1), record w { trace = broadcast m.0 m.1 ∷ w.trace })

  -- the row is stored before the announcement
  abbrev pub settle : Option (Text × Text) → Key → Option (List Text) → World → Option Visit × World
  settle message k none w = (none, w)
  settle message k (some []) w =
      let told = announce message (on_ledger (record_granted k) w) in
      (if told.0 then some grant else none, told.1)
  settle message k (some (r ∷ rs)) w = (some fail, on_ledger (record_failed k (r ∷ rs)) w)

  -- a template that is no text cannot be an argument of a process
  abbrev pub give_item : Text → Key → Item → Option Text → World → Option (List Text) × World
  give_item fls k it none w = (none, w)
  give_item fls k it (some template) w = (
    reasons_of template (script.gives w.trace fls it),
    record w { trace = gave fls k it ∷ w.trace },
  )

  unfoldable pub grant_account : Text → Key → List Item → World → Option (List Text) × World
  grant_account fls k [] w = (some [], w)
  grant_account fls k (it ∷ its) w =
      let first = give_item fls k it it.template w in
      let rest = grant_account fls k its first.1 in
      (both first.0 rest.0, if is_some first.0 then rest.1 else first.1)

  module _ (message : Option (Text × Text)) (version : Text) (items : List Item) where
    unfoldable pub visit : Account → World → Option Visit × World
    visit a w =
        let r = grant_account a.fls (key_of version a) items w in
        if is_empty (strip a.fls)
        then (some ignored, w)
        else if granted_exists (key_of version a) w.ledger
        then (some skip, w)
        else settle message (key_of version a) r.0 r.1

    abbrev pub count_visit : Option Visit → Counts → Counts
    count_visit none c = c
    count_visit (some v) c = tally v c

    unfoldable pub scan_from : List Account → Counts → World → Option Counts × World
    scan_from [] c w = (some c, w)
    scan_from (a ∷ later) c w =
        let r = visit a w in
        let rest = scan_from later (count_visit r.0 c) r.1 in
        if is_some r.0 then rest else (none, r.1)

    unfoldable pub scan_once : List Account → World → Option Counts × World
    scan_once later w = scan_from later (record { granted = 0; failed = 0; skipped = 0 }) w

-- what a scan reports
pub data Report : Type 0 where
  disabled no_package bad_items : Report
  scanned : Counts → ℕ → Report

-- the accounts of a scan have no name of a character
module _ (script : Script) (show : Json → Text) (lower : ℕ → ℕ) where
  abbrev pub report_of : ℕ → Option Counts → Option Report
  report_of online none = none
  report_of online (some c) = some (scanned c online)

  -- the query may fail, and the package may have no version
  abbrev pub scan_package :
      Config → Option Text → List Item → Option (List Text) → World → Option Report × World
  scan_package cfg version items none w = (none, w)
  scan_package cfg none items (some csv) w = (none, w)
  scan_package cfg (some version) items (some csv) w =
      let accounts = parse_accounts_csv lower csv in
      let r = scan_once script (render_announce cfg []) version items accounts w in
      (report_of (length accounts) r.0, r.1)

  abbrev pub scan_checked :
      Config → Option Text → Checked → Option (List Text) → World → Option Report × World
  scan_checked cfg version (valid items) csv w = scan_package cfg version items csv w
  scan_checked cfg version refused csv w = (some bad_items, w)
  scan_checked cfg version Package.raised csv w = (none, w)

  abbrev pub scan_active :
      Config → Option Package → Option (List Text) → World → Option Report × World
  scan_active cfg none csv w = (some no_package, w)
  scan_active cfg (some p) csv w = scan_checked cfg p.version (validate_items show p.items) csv w

  -- `none` is an exception
  unfoldable pub run_scan : Option Config → Option (List Text) → World → Option Report × World
  run_scan none csv w = (none, w)
  run_scan (some cfg) csv w =
      if not cfg.enabled then (some disabled, w) else scan_active cfg (active_package cfg) csv w

  abbrev pub seconds_after : ℕ → Option Report → ℕ
  seconds_after interval none = 60
  seconds_after interval (some r) = interval

  -- a pass of the loop, which reads the configuration twice: the seconds to sleep, and what is left
  abbrev pub loop_from : Option ℤ → Option Config → Option (List Text) → World → ℕ × World
  loop_from none cfg csv w = (60, w)
  loop_from (some n) cfg csv w =
      let r = run_scan cfg csv w in (seconds_after (max (pos_part n) 15) r.0, r.1)

  abbrev pub interval_of : Option Config → Option ℤ
  interval_of none = none
  interval_of (some cfg) = cfg.scan_interval_secs

  unfoldable pub scan_loop_pass :
      Option Config → Option Config → Option (List Text) → World → ℕ × World
  scan_loop_pass first second csv w = loop_from (interval_of first) second csv w
