-- ===== src/Events/Orderly.antt =====
-- One outcome: the steps of a reward that have landed are the first ones of its plan, and a claim
-- that is pending stands at the next one.
use pelican_egg_dune_awakeni.Base.{
  ◌≡◌, ◌⊎◌, refl, sym, ◌∙◌, Bool, true, false, List, [], ◌∷◌, ◌++◌, Option, none, some,
  if◌then◌else◌,
}
use mathlib.Core.List.{append_assoc, append-nil}
use pelican_egg_dune_awakeni.Base.Table.{find}
use pelican_egg_dune_awakeni.Events.Engine.{
  Event, landed, announced, World, log_landed, announce_if,
}
use pelican_egg_dune_awakeni.Events.Rewards.{Spec, RewardStep, steps, remaining}
use pelican_egg_dune_awakeni.Events.Store.{
  ClaimKey, ClaimKey_Eq, same_claim, same_claim_iff, pending, granted, exhausted, Claim,
}

abbrev pub step_of : ClaimKey → Event → List RewardStep
step_of k (landed j s) = if same_claim j k then s ∷ [] else []
step_of k (announced j) = []

-- the steps that landed for a claim, oldest first
unfoldable pub landed_steps : ClaimKey → List Event → List RewardStep
landed_steps k [] = []
landed_steps k (e ∷ es) = landed_steps k es ++ step_of k e

abbrev pub IsClaim : Spec → Claim → List RewardStep → List RewardStep → Type 0
IsClaim p c done owed = elim c.status [
  | pending ↦ remaining p c.cursor ≡ owed
  | granted ↦ (owed ≡ []) ⊎ (done ≡ [])
  | exhausted ↦ Unit
]

abbrev pub IsRow : Spec → Option Claim → List RewardStep → List RewardStep → Type 0
IsRow p none done owed = done ≡ []
IsRow p (some c) done owed = IsClaim p c done owed

module _ {F : Type 0} where
  -- what has landed and what is owed make up the plan
  pub record IsOrderly (p : Spec) (k : ClaimKey) (w : World F) : Type 0 where
    pub owed : List RewardStep
    pub plan : landed_steps k w.trace ++ owed ≡ steps p
    pub row : IsRow p (find k w.store.claims) (landed_steps k w.trace) owed

  pub landed_steps-log_self :
      (k : ClaimKey) (ss : List RewardStep) (w : World F)
      → landed_steps k (log_landed k ss w).trace ≡ landed_steps k w.trace ++ ss
  unfolding log_landed landed_steps
  landed_steps-log_self k [] w = sym (append-nil (landed_steps k w.trace))
  landed_steps-log_self k (s ∷ ss) w =
      let eq : same_claim k k ≡ true = (same_claim_iff k k).1 refl in
      let ih = landed_steps-log_self k ss (record w { trace = landed k s ∷ w.trace }) in
      ih ∙ rw eq (append_assoc (landed_steps k w.trace) (s ∷ []) ss)

  pub landed_steps-log_ne :
      (j k : ClaimKey) (ss : List RewardStep) (w : World F)
      → same_claim k j ≡ false
      → landed_steps j (log_landed k ss w).trace ≡ landed_steps j w.trace
  unfolding log_landed landed_steps
  landed_steps-log_ne j k [] w ne = refl
  landed_steps-log_ne j k (s ∷ ss) w ne =
      landed_steps-log_ne j k ss (record w { trace = landed k s ∷ w.trace }) ne
      ∙ rw ne (append-nil (landed_steps j w.trace))

  pub log_landed-store :
      (k : ClaimKey) (ss : List RewardStep) (w : World F) → (log_landed k ss w).store ≡ w.store
  unfolding log_landed
  log_landed-store k [] w = refl
  log_landed-store k (s ∷ ss) w = log_landed-store k ss (record w { trace = landed k s ∷ w.trace })

  pub landed_steps-announce :
      (b : Bool) (j k : ClaimKey) (w : World F)
      → landed_steps j (announce_if b k w).trace ≡ landed_steps j w.trace
  unfolding landed_steps
  landed_steps-announce true j k w = append-nil (landed_steps j w.trace)
  landed_steps-announce false j k w = refl

  pub announce-store : (b : Bool) (k : ClaimKey) (w : World F) → (announce_if b k w).store ≡ w.store
  announce-store true k w = refl
  announce-store false k w = refl

  -- the same landed steps and row
  pub IsOrderly-same :
      (p : Spec) (k : ClaimKey) (w v : World F)
      → landed_steps k v.trace ≡ landed_steps k w.trace
      → find k v.store.claims ≡ find k w.store.claims
      → IsOrderly p k w
      → IsOrderly p k v
  IsOrderly-same p k w v e f o = record { owed = o.owed; plan = rw e o.plan; row = rw (e, f) o.row }
