-- ===== src/Autoscaler/Loop.antt =====
-- `load_config` and the `scan-loop` command: a full tick at the slow cadence, wake passes between.
use pelican_egg_dune_awakeni.Base.{
  ℕ, ◌+◌, not, List, map, Option, none, some, Text, is_empty, leb, max, min, if◌then◌else◌,
}
use pelican_egg_dune_awakeni.Base.Json.{Json, object, end}
use pelican_egg_dune_awakeni.Autoscaler.Settings.{
  Settings, map_config, validate_config, min_scan_interval_secs, min_wake_poll_secs,
}
use pelican_egg_dune_awakeni.Autoscaler.Tick.{World, Input, Config, run_tick, run_wake}

-- the configuration of a tick
abbrev pub config_of : Settings → Config
config_of s = record {
  maps = map map_config s.maps;
  limits = s.limits;
  deep_desert = s.deep_desert_enabled;
  pool = s.pool;
  webhook = not (is_empty s.webhook_url);
}

abbrev or_default : Option Settings → Option Settings → Option Settings
or_default none d = d
or_default (some s) d = some s

-- of the JSON of the file, `none` if it is missing or malformed
unfoldable pub load_config : (ℕ → ℕ) → Option Json → Option Settings
load_config lower none = validate_config lower (object end)
load_config lower (some raw) =
    or_default (validate_config lower raw) (validate_config lower (object end))

pub record LoopState : Type 0 where
  pub world : World
  -- the monotonic deadline of the next full tick
  pub next_full : ℕ
  -- the seconds to sleep
  pub interval : ℕ

abbrev scan_secs : Settings → ℕ
scan_secs s = max s.scan_interval_secs min_scan_interval_secs

abbrev wake_secs : Settings → ℕ
wake_secs s = min (max s.wake_poll_secs min_wake_poll_secs) (scan_secs s)

-- `none` is an exception, after which the loop sleeps for a minute
abbrev after_pass : ℕ → ℕ → Option World → LoopState → LoopState
after_pass wake next none s = record s { interval = 60 }
after_pass wake next (some w) s = record { world = w; next_full = next; interval = wake }

unfoldable pub scan_pass :
    (ℕ → ℕ) → (List ℕ → List Text) → Settings → ℕ → Input → LoopState → LoopState
scan_pass fold lines_of cfg mono i s =
    let scan = scan_secs cfg in
    if not cfg.enabled
    then record s { interval = scan }
    else if leb s.next_full mono
    then after_pass (wake_secs cfg) (mono + scan) (run_tick fold lines_of (config_of cfg) i s.world)
        s
    else after_pass (wake_secs cfg) s.next_full (run_wake fold lines_of (config_of cfg) i s.world) s
