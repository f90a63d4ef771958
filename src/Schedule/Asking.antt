-- ===== src/Schedule/Asking.antt =====
-- The runners below a tick only add events to the trace: they leave every observation that does not
-- see those events.
use pelican_egg_dune_awakeni.Base.{ℕ, ◌≡◌, Bool, List, ◌∷◌, Option, none, some, String, Text}
use pelican_egg_dune_awakeni.Schedule.Action.{
  Event, asked_restart, Command, Env, World, Result, MapEntry, ask,
}
use pelican_egg_dune_awakeni.Base.Int.{ℤ}
use pelican_egg_dune_awakeni.Schedule.Leaves.{
  Leaves, Leaves-bind, Leaves-if, Leaves-pure, leaves_rules,
}
use pelican_egg_dune_awakeni.Schedule.Runners.{
  TaskKind, broadcast_task, scale_task, other_task, ScaleKey, publish, run_backup,
  broadcast_restart, run_broadcast, patch_replicas, scale_if_empty, scale_key, scale_tracked,
  run_scale_instance, run_task,
}

-- all events but the request of a restart
abbrev pub IsOther : Event → Type 0
IsOther asked_restart = ⊥
IsOther _ = Unit

abbrev pub IsBlind : {B : Type 0} → (World → B) → Type 0
IsBlind f = (e : Event) (w : World) → IsOther e → f (record w { trace = e ∷ w.trace }) ≡ f w

module _ {B : Type 0} (f : World → B) (blind : IsBlind f) (env : Env) where
  ask-Leaves :
      {A : Type 0} (e : Event) (answer : List Event → Result A)
      → IsOther e
      → Leaves f (ask e answer)
  unfolding ask
  ask-Leaves e answer h = record { at = λ w. blind e w h }

  pub publish-Leaves : (c : Command) → Leaves f (publish env c)
  unfolding publish
  publish-Leaves c = ask-Leaves _ _ tt

  ruleset asking_rules = (leaves_rules, publish-Leaves)

  pub run_backup-Leaves : Leaves f (run_backup env)
  unfolding run_backup
  run_backup-Leaves = search asking_rules

  pub run_broadcast-Leaves :
      (title body : Text) (duration : ℤ) → Leaves f (run_broadcast env title body duration)
  unfolding run_broadcast
  run_broadcast-Leaves title body duration = search asking_rules

  pub patch_replicas-Leaves : (k : ScaleKey) (n : ℕ) → Leaves f (patch_replicas env k n)
  unfolding patch_replicas
  patch_replicas-Leaves k n = Leaves-bind _ _ (ask-Leaves _ _ tt) (λ c. Leaves-pure _)

  pub scale_if_empty-Leaves :
      (k : ScaleKey) (n : ℕ) (online : Option ℕ) → Leaves f (scale_if_empty env k n online)
  unfolding scale_if_empty
  scale_if_empty-Leaves k n none = Leaves-pure _
  scale_if_empty-Leaves k n (some online) = search (asking_rules, patch_replicas-Leaves)

  pub scale_key-Leaves :
      (m : String) (n : ℕ) (force : Bool) (k : Option ScaleKey)
      → Leaves f (scale_key env m n force k)
  unfolding scale_key
  scale_key-Leaves m n force none = Leaves-pure _
  scale_key-Leaves m n force (some k) = Leaves-if _ _ _ (Leaves-pure _) (
      Leaves-if _ _ _ (Leaves-bind _ _ (ask-Leaves _ _ tt) (scale_if_empty-Leaves k n))
        (patch_replicas-Leaves k n))

  pub scale_tracked-Leaves :
      (m : String) (n : ℕ) (force : Bool) (maps : Option (List MapEntry))
      → Leaves f (scale_tracked env m n force maps)
  unfolding scale_tracked
  scale_tracked-Leaves m n force none = Leaves-pure _
  scale_tracked-Leaves m n force (some maps) = scale_key-Leaves m n force _

  pub run_scale_instance-Leaves :
      (m : String) (n : ℕ) (force : Bool) → Leaves f (run_scale_instance env m n force)
  unfolding run_scale_instance
  run_scale_instance-Leaves m n force =
      Leaves-if _ _ _ (Leaves-pure _)
        (Leaves-bind _ _ (ask-Leaves _ _ tt) (scale_tracked-Leaves m n force))

  pub run_task-Leaves : (k : TaskKind) → Leaves f (run_task env k)
  unfolding run_task
  run_task-Leaves (broadcast_task title body duration) =
      Leaves-bind _ _ (run_broadcast-Leaves title body duration) (λ r. Leaves-pure _)
  run_task-Leaves (scale_task m n force) = run_scale_instance-Leaves m n force
  run_task-Leaves other_task = Leaves-pure _

  pub broadcast_restart-Leaves : (a b : ℕ) → Leaves f (broadcast_restart env a b)
  unfolding broadcast_restart
  broadcast_restart-Leaves a b = search asking_rules
