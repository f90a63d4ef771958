-- ===== src/Events/Rewards.antt =====
-- scripts/admin_rewards.py: the plan of a reward, its cursor, and its delivery. A cursor is kept as
-- the value that its JSON text holds; the hash of a reward is a parameter.
use pelican_egg_dune_awakeni.Base.{
  ℕ, ◌+◌, ◌==◌, Bool, true, ◌&&◌, ◌||◌, List, [], ◌∷◌, ◌++◌, Option, none, some, Text, text_eq, leb,
  ltb, is_empty, if◌then◌else◌,
}

pub data Stage : Type 0 where
  currency items xp : Stage

pub record RewardItem : Type 0 where
  pub template : Text
  pub qty : ℕ
  pub quality : ℕ

pub record TrackXp : Type 0 where
  pub track : Text
  pub amount : ℕ

-- what `parse_spec` returns
pub record Spec : Type 0 where
  pub currency_amount : ℕ
  pub reward_items : List RewardItem
  pub track_xp : List TrackXp

pub data Payload : Type 0 where
  amount_of : ℕ → Payload
  item_of : RewardItem → Payload
  xp_of : TrackXp → Payload

pub record RewardStep : Type 0 where
  pub stage : Stage
  pub index : ℕ
  pub payload : Payload

unfoldable pub is_empty_spec : Spec → Bool
is_empty_spec s = s.currency_amount == 0 && is_empty s.reward_items && is_empty s.track_xp

unfoldable pub item_steps : ℕ → List RewardItem → List RewardStep
item_steps i [] = []
item_steps i (it ∷ its) =
    record { stage = items; index = i; payload = item_of it } ∷ item_steps (i + 1) its

unfoldable pub xp_steps : ℕ → List TrackXp → List RewardStep
xp_steps i [] = []
xp_steps i (t ∷ ts) = record { stage = xp; index = i; payload = xp_of t } ∷ xp_steps (i + 1) ts

unfoldable pub currency_steps : ℕ → List RewardStep
currency_steps n =
    if n == 0 then [] else record { stage = currency; index = 0; payload = amount_of n } ∷ []

unfoldable pub steps : Spec → List RewardStep
unfolding currency_steps item_steps xp_steps
steps s = currency_steps s.currency_amount ++ (item_steps 0 s.reward_items ++ xp_steps 0 s.track_xp)

-- `{n: i for i, n in enumerate(STAGES)}`
abbrev pub order : Stage → ℕ
order currency = 0
order items = 1
order xp = 2

pub record Cursor : Type 0 where
  pub stage : Stage
  pub index : ℕ
  -- the hash of the reward that it was cut from, if the text holds one
  pub spec : Option Text

abbrev pub cursor_of : (Spec → Text) → RewardStep → Spec → Cursor
cursor_of hash step s = record { stage = step.stage; index = step.index; spec = some (hash s) }

-- `none` is an absent cursor, or one that does not parse
unfoldable pub cursor_matches_spec : (Spec → Text) → Option Cursor → Spec → Bool
cursor_matches_spec hash none s = true
cursor_matches_spec hash (some c) s = elim c.spec [ none ↦ true | some h ↦ text_eq h (hash s) ]

-- `(order[stage], index) >= cursor`, as Python compares pairs
abbrev pub reaches : Stage → ℕ → RewardStep → Bool
reaches stage index s =
    ltb (order stage) (order s.stage) || (order s.stage == order stage && leb index s.index)

unfoldable pub steps_from : Stage → ℕ → List RewardStep → List RewardStep
steps_from stage index [] = []
steps_from stage index (s ∷ ss) =
    let rest = steps_from stage index ss in if reaches stage index s then s ∷ rest else rest

unfoldable pub remaining : Spec → Option Cursor → List RewardStep
remaining s none = steps s
remaining s (some c) = steps_from c.stage c.index (steps s)

-- whether the runner reports no error for a step
abbrev pub Runner : Type 0
Runner = RewardStep → Bool

-- the steps that landed, and the step that failed
pub record Delivery : Type 0 where
  pub landed : List RewardStep
  pub stopped : Option RewardStep

abbrev pub landing : RewardStep → Delivery → Delivery
landing s d = record { landed = s ∷ d.landed; stopped = d.stopped }

unfoldable pub run_steps : Runner → List RewardStep → Delivery
run_steps runner [] = record { landed = []; stopped = none }
run_steps runner (s ∷ ss) =
    let rest = landing s (run_steps runner ss) in
    if runner s then rest else record { landed = []; stopped = some s }

unfoldable pub deliver : Spec → Runner → Option Cursor → Delivery
deliver s runner cursor = run_steps runner (remaining s cursor)
