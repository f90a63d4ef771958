-- ===== src/Schedule/Ledger.antt =====
-- `SchedulerLedger`: the table of runs, newest first, and the keyed state. A stored instant is the
-- stamp that `_iso` prints; a run's detail is a value that names its message (`said t`: a message
-- cut from the output `t`).
use text.Mathlib.Text.{◌==◌ as str_eq}
use pelican_egg_dune_awakeni.Base.{
  ℕ, Bool, true, false, ◌&&◌, List, [], ◌∷◌, Option, none, some, Text, String, if◌then◌else◌,
}

-- the `task` column: the fixed names, and `task:<id>`
pub data RunKey : Type 0 where
  restart restart_warn restart_armed restart_cancel backup certificate : RunKey
  task : String → RunKey

abbrev pub same_run_key : RunKey → RunKey → Bool
same_run_key restart restart = true
same_run_key restart_warn restart_warn = true
same_run_key restart_armed restart_armed = true
same_run_key restart_cancel restart_cancel = true
same_run_key backup backup = true
same_run_key certificate certificate = true
same_run_key (task a) (task b) = str_eq a b
same_run_key _ _ = false

pub data Status : Type 0 where
  ok_status skipped_status error_status : Status

abbrev pub settled : Status → Bool
settled ok_status = true
settled skipped_status = true
settled error_status = false

pub data Detail : Type 0 where
  said : Text → Detail
  discarded_stale : ℕ → ℕ → Detail
  triggered : ℕ → Detail
  credentials_unset not_configured : Detail
  power_skipped : Detail
  power_error : Text → Detail
  power_http : ℕ → Text → Detail
  could_not_run : Text → Detail
  checking renewal_started : Detail
  armed_for : ℕ → ℕ → Detail
  cancelled_quietly cancelled_aloud : Detail
  missing_text bad_scale mock_unreachable untracked_map players_unconfirmed : Detail
  already_at players_online : ℕ → Detail
  scale_failed : Option ℕ → Detail
  scaled : ℕ → ℕ → Detail
  unknown_task task_raised : Detail

pub record Run : Type 0 where
  pub key : RunKey
  pub status : Status
  pub detail : Detail
  pub at : ℕ

pub data StateKey : Type 0 where
  pending_restart_at pending_warn_at pending_warn_spec : StateKey

abbrev pub same_key : StateKey → StateKey → Bool
same_key pending_restart_at pending_restart_at = true
same_key pending_warn_at pending_warn_at = true
same_key pending_warn_spec pending_warn_spec = true
same_key _ _ = false

-- a stamp, or the JSON object of the announcement: its `type` and `freq_secs`
pub data StateValue : Type 0 where
  stamp : ℕ → StateValue
  spec : String → ℕ → StateValue

pub record Ledger : Type 0 where
  pub runs : List Run
  pub state : StateKey → Option StateValue

unfoldable pub get_state : StateKey → Ledger → Option StateValue
get_state k l = l.state k

unfoldable pub set_state : StateKey → StateValue → Ledger → Ledger
set_state k v l = record l { state = λ j. if same_key k j then some v else l.state j }

unfoldable pub clear_state : StateKey → Ledger → Ledger
clear_state k l = record l { state = λ j. if same_key k j then none else l.state j }

unfoldable pub record_run : RunKey → Status → Detail → ℕ → Ledger → Ledger
record_run key status detail at l = record l {
  runs = record { key = key; status = status; detail = detail; at = at } ∷ l.runs;
}

-- `ORDER BY id DESC LIMIT 1`
unfoldable pub last_run : RunKey → List Run → Option ℕ
last_run key [] = none
last_run key (r ∷ rs) = if same_run_key r.key key then some r.at else last_run key rs

unfoldable pub last_settled_run : RunKey → List Run → Option ℕ
last_settled_run key [] = none
last_settled_run key (r ∷ rs) =
    if same_run_key r.key key && settled r.status then some r.at else last_settled_run key rs

abbrev pub last : RunKey → Ledger → Option ℕ
last key l = last_run key l.runs

abbrev pub last_settled : RunKey → Ledger → Option ℕ
last_settled key l = last_settled_run key l.runs

-- `_parse_iso` of a state value: the object of the announcement is no stamp
abbrev pub as_stamp : Option StateValue → Option ℕ
as_stamp (some (stamp s)) = some s
as_stamp _ = none

-- `int(spec.get("freq_secs", 60))` of the announcement; what is not its JSON object counts as empty
abbrev pub freq_of : Option StateValue → ℕ
freq_of (some (spec t f)) = f
freq_of _ = 60
