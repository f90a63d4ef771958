-- ===== src/Autoscaler/Store.antt =====
-- `AutoscalerLedger`: the history, and the keyed state under the kinds of its keys: `idle:<map>`,
-- `demand:<map>`, `log_offset`, and those of the dimensions. A stored instant is a stamp in seconds.
use pelican_egg_dune_awakeni.Base.{ℕ, List, ◌∷◌, Option, none, some, Text, text_eq, if◌then◌else◌}
use pelican_egg_dune_awakeni.Autoscaler.Pool.{Timers}
use pelican_egg_dune_awakeni.Schedule.Time.{iso}

pub data RunAction : Type 0 where
  scaled_up scaled_down dim_up dim_down failed swept : RunAction

pub record Run : Type 0 where
  pub map_name : Text
  pub action : RunAction

-- `dd_spawning_pid`, `dd_spawning_at`, `dd_last_spawn` and the keys `dd_idle:<pid>`
pub record DimState : Type 0 where
  pub spawning_pid : Option ℕ
  pub spawning_at : Option ℕ
  pub last_spawn : Option ℕ
  pub idle : Timers

pub record AutoLedger : Type 0 where
  pub runs : List Run
  pub idle : Text → Option ℕ
  pub demand : Text → Option ℕ
  pub log_offset : Option ℕ
  pub dims : DimState

unfoldable pub record_action : Text → RunAction → AutoLedger → AutoLedger
record_action m a l = record l { runs = record { map_name = m; action = a } ∷ l.runs }

abbrev pub stamped : Option ℕ → Option ℕ
stamped none = none
stamped (some t) = some (iso t)

abbrev pub with_key : Text → Option ℕ → (Text → Option ℕ) → Text → Option ℕ
with_key m v f = λ j. if text_eq m j then v else f j

-- `_persist_timer` under `idle:<map>` and under `demand:<map>`
unfoldable pub persist_idle : Text → Option ℕ → AutoLedger → AutoLedger
persist_idle m t l = record l { idle = with_key m (stamped t) l.idle }

unfoldable pub persist_demand : Text → Option ℕ → AutoLedger → AutoLedger
persist_demand m t l = record l { demand = with_key m (stamped t) l.demand }

abbrev pub set_offset : ℕ → AutoLedger → AutoLedger
set_offset n l = record l { log_offset = some n }

abbrev pub set_dims : DimState → AutoLedger → AutoLedger
set_dims d l = record l { dims = d }
