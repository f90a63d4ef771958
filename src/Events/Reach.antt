-- ===== src/Events/Reach.antt =====
-- The runs of the event engine: ticks, edits of the events, and resets of other events' claims, in
-- any order, with any answers of the game and of the reward commands.
use pelican_egg_dune_awakeni.Base.{ℕ, ◌≡◌, Bool, true, false, List, [], Option, none, Text, All}
use pelican_egg_dune_awakeni.Base.Table.{find}
use pelican_egg_dune_awakeni.Events.Engine.{Floats, World, Game, set_claims}
use pelican_egg_dune_awakeni.Events.Orderly.{landed_steps}
use pelican_egg_dune_awakeni.Events.Rewards.{Spec}
use pelican_egg_dune_awakeni.Events.Rows.{HasDistinct}
use pelican_egg_dune_awakeni.Events.Store.{
  ClaimKey, ClaimKey_Eq, Definition, of_event, reset_claims,
}
use pelican_egg_dune_awakeni.Events.Tick
use pelican_egg_dune_awakeni.Events.Ticks.{IsReward}

-- One operation. The ticks find the reward `p` in every event of the claim's id and version, and
-- none of their reads of the game fails.
pub data Step {F : Type 0} (p : Spec) (k : ClaimKey) (w : World F) : World F → Type 0 where
  ticked :
      (fl : Floats F) (hash : Spec → Text) (g : Game F) (now : ℕ) (jitter : ℕ → ℕ → ℕ)
      (enabled boot : Bool)
      → All (IsReward p k) w.store.events
      → (Tick.tick fl hash g now jitter boot w).fine ≡ true
      → Step p k w (Tick.run_tick fl hash g now jitter enabled boot w)
  edited :
      (es : List (Definition F)) (due : ℕ → Option ℕ)
      → Step p k w (record w { store = record (w.store) { events = es; next_due = due } })
  reset :
      (id : ℕ) → of_event id k ≡ false → Step p k w (set_claims (reset_claims id w.store.claims) w)

pub data Reach {F : Type 0} (p : Spec) (k : ClaimKey) (start : World F) : World F → Type 0 where
  here : Reach p k start start
  next : {w v : World F} → Reach p k start w → Step p k w v → Reach p k start v

-- an account that has no claim to the event and was given nothing, in a table with distinct keys
pub record IsFresh {F : Type 0} (k : ClaimKey) (w : World F) : Type 0 where
  pub free : find k w.store.claims ≡ none
  pub unpaid : landed_steps k w.trace ≡ []
  pub distinct : HasDistinct w
