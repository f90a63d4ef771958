-- ===== src/Schedule/Runners.antt =====
-- The runners that act for the scheduler: backup, broadcasts, scaling, the panel's restart.
use text.Mathlib.Text.{◌==◌ as str_eq}
use pelican_egg_dune_awakeni.Base.{
  ℕ, Bool, true, false, not, ◌&&◌, ◌||◌, List, [], ◌∷◌, Option, none, some, Text, String, codes,
  strip, is_empty, contains, partition, leb, ltb, ◌==◌, if◌then◌else◌,
}
use pelican_egg_dune_awakeni.Base.Int.{ℤ, pos, negsuc}
use pelican_egg_dune_awakeni.Schedule.Action.{
  Command, db_backup, broadcast, shutdown_restart, Proc, not_run, exited, Response, no_response,
  responded, MapEntry, ran, asked_restart, fetched_status, counted_players, patched, Env, M, pure,
  ask, ◌>>=◌,
}
use pelican_egg_dune_awakeni.Schedule.Due.{TaskSchedule, at_least_one}
use pelican_egg_dune_awakeni.Schedule.Ledger.{
  Status, ok_status, skipped_status, error_status, Detail, said, power_skipped, power_error,
  power_http, could_not_run, missing_text, bad_scale, mock_unreachable, untracked_map,
  players_unconfirmed, already_at, players_online, scale_failed, scaled, unknown_task,
}

abbrev pub succeeded : ℤ → Bool
succeeded (pos n) = n == 0
succeeded (negsuc n) = false

-- `(ok, detail)` of a finished backup
abbrev pub backup_outcome : Proc → Bool × Detail
backup_outcome (not_run e) = (false, could_not_run e)
backup_outcome (exited code out err) =
    if succeeded code && contains (codes "backup=ok") out
    then (true, said out)
    else (false, said err)

abbrev pub said_by : Text → Text → Detail
said_by out err = if is_empty (strip out) then said err else said out

abbrev pub publish_outcome : Proc → Bool × Detail
publish_outcome (not_run e) = (false, could_not_run e)
publish_outcome (exited code out err) = (succeeded code, said_by out err)

abbrev pub power_outcome : Response → Bool × Detail
power_outcome (no_response e) = (false, power_error e)
power_outcome (responded code words) = (leb 200 code && ltb code 300, power_http code words)

pub data TaskKind : Type 0 where
  broadcast_task : Text → Text → ℤ → TaskKind
  scale_task : String → ℕ → Bool → TaskKind
  other_task : TaskKind

pub record Task : Type 0 where
  pub id : String
  pub enabled : Bool
  pub schedule : TaskSchedule
  pub kind : TaskKind

abbrev pub scalable : String → Bool
scalable m = str_eq m "DeepDesert_1" || str_eq m "SH_Arrakeen" || str_eq m "SH_HarkoVillage"

-- a `(namespace, name, current_desired)`
pub record ScaleKey : Type 0 where
  pub namespace : Text
  pub name : Text
  pub current : ℕ

abbrev pub key_of : MapEntry → Option ScaleKey
key_of e =
    if is_empty e.key
    then none
    else let (ns, name) = partition b'/' e.key in
      some (record { namespace = ns; name = name; current = e.desired })

-- `resolve_scale_key`: the first entry of the map decides
unfoldable pub resolve_scale_key : List MapEntry → String → Option ScaleKey
resolve_scale_key [] m = none
resolve_scale_key (e ∷ es) m = if str_eq e.map_name m then key_of e else resolve_scale_key es m

-- `code is None or code >= 300`
abbrev pub patch_outcome : ℕ → ℕ → Option ℕ → Status × Detail
patch_outcome current replicas none = (error_status, scale_failed none)
patch_outcome current replicas (some code) =
    if leb 300 code
    then (error_status, scale_failed (some code))
    else (ok_status, scaled current replicas)

module _ (env : Env) where
  unfoldable pub publish : Command → M Proc
  unfolding ask
  publish c = ask (ran c) (λ t. env.publish t c)

  unfoldable pub run_backup : M (Bool × Detail)
  run_backup = do p ← publish db_backup; pure (backup_outcome p)

  unfoldable pub broadcast_restart : ℕ → ℕ → M (Bool × Detail)
  broadcast_restart lead freq = do
    p ← publish (shutdown_restart lead freq)
    pure (publish_outcome p)

  unfoldable pub run_broadcast : Text → Text → ℤ → M (Bool × Detail)
  run_broadcast title body duration =
      if is_empty (strip title) || is_empty (strip body) then pure (false, missing_text) else do
        p ← publish (broadcast (strip title) (strip body) (at_least_one duration))
        pure (publish_outcome p)

  -- `admin_pelican.restart`
  unfoldable pub pelican_restart : M (Bool × Detail)
  pelican_restart =
      if not env.configured
      then pure (false, power_skipped)
      else do r ← ask asked_restart env.panel; pure (power_outcome r)

  unfoldable pub patch_replicas : ScaleKey → ℕ → M (Status × Detail)
  patch_replicas k replicas = do
    code ←
        ask (patched k.namespace k.name replicas)
          (λ t. env.patch_scale t k.namespace k.name replicas)
    pure (patch_outcome k.current replicas code)

  -- the guard on a scale-down: only a confirmed 0 goes on
  unfoldable pub scale_if_empty : ScaleKey → ℕ → Option ℕ → M (Status × Detail)
  scale_if_empty k replicas none = pure (skipped_status, players_unconfirmed)
  scale_if_empty k replicas (some online) =
      if ltb 0 online
      then pure (skipped_status, players_online online)
      else patch_replicas k replicas

  unfoldable pub scale_key : String → ℕ → Bool → Option ScaleKey → M (Status × Detail)
  scale_key m replicas force none = pure (error_status, untracked_map)
  scale_key m replicas force (some k) =
      if replicas == k.current
      then pure (ok_status, already_at replicas)
      else if ltb replicas k.current && not force
      then (do
        online ← ask (counted_players m) (λ t. env.online_count t m)
        scale_if_empty k replicas online)
      else patch_replicas k replicas

  unfoldable pub scale_tracked : String → ℕ → Bool → Option (List MapEntry) → M (Status × Detail)
  scale_tracked m replicas force none = pure (error_status, mock_unreachable)
  scale_tracked m replicas force (some maps) = scale_key m replicas force (resolve_scale_key maps m)

  unfoldable pub run_scale_instance : String → ℕ → Bool → M (Status × Detail)
  run_scale_instance m replicas force =
      if not (scalable m)
      then pure (error_status, bad_scale)
      else do mock ← ask fetched_status env.mock_status; scale_tracked m replicas force mock

  abbrev pub status_of : Bool → Status
  status_of ok = if ok then ok_status else error_status

  unfoldable pub run_task : TaskKind → M (Status × Detail)
  run_task (broadcast_task title body duration) = do
    (ok, detail) ← run_broadcast title body duration
    pure (status_of ok, detail)
  run_task (scale_task m replicas force) = run_scale_instance m replicas force
  run_task other_task = pure (error_status, unknown_task)
