-- ===== src/Events/RewardsLaws.antt =====
-- A delivery that failed is taken up where it stopped: over all attempts each step lands once.
use pelican_egg_dune_awakeni.Base.{
  ℕ, ◌+◌, ◌≤◌, ◌<◌, ◌≡◌, inl, inr, refl, ap, sym, subst, ◌∙◌, true, false, List, [], ◌∷◌, ◌++◌,
  Option, none, some, Text, All, All-append, All-weaken, Bool-cases, text_eq_iff, arith,
}
use mathlib.Core.List.{append_assoc}
use pelican_egg_dune_awakeni.Events.Rewards.{
  item_of, xp_of, items, xp, RewardItem, TrackXp, Spec, RewardStep, item_steps, xp_steps,
  currency_steps, steps, order, reaches, steps_from, Cursor, cursor_of, cursor_matches_spec,
  remaining, Runner, Delivery, run_steps, deliver,
}

All-both :
    (P Q : RewardStep → Type 0) (xs : List RewardStep)
    → All P xs
    → All Q xs
    → All (λ x. P x × Q x) xs
All-both P Q [] h k = tt
All-both P Q (x ∷ xs) (p, h) (q, k) = ((p, q), All-both P Q xs h k)

All-middle :
    (P : RewardStep → Type 0) (pre : List RewardStep) (s : RewardStep) (post : List RewardStep)
    → All P (pre ++ (s ∷ post))
    → P s
All-middle P [] s post (p, h) = p
All-middle P (x ∷ pre) s post (p, h) = All-middle P pre s post h

-- `b` comes strictly after `a`
abbrev pub Later : RewardStep → RewardStep → Type 0
Later a b = reaches b.stage b.index a ≡ false

abbrev Ordered : List RewardStep → Type 0
Ordered [] = Unit
Ordered (s ∷ ss) = All (Later s) ss × Ordered ss

Ordered-append :
    (xs ys : List RewardStep)
    → Ordered xs
    → Ordered ys
    → All (λ x. All (Later x) ys) xs
    → Ordered (xs ++ ys)
Ordered-append [] ys h k a = k
Ordered-append (x ∷ xs) ys (l, h) k (b, a) =
    (All-append (Later x) xs ys l b, Ordered-append xs ys h k a)

abbrev At : ℕ → ℕ → RewardStep → Type 0
At stage i s = (order s.stage ≡ stage) × (i ≤ s.index)

item_steps-At : (i : ℕ) (its : List RewardItem) → All (At 1 i) (item_steps i its)
unfolding item_steps
item_steps-At i [] = tt
item_steps-At i (it ∷ its) = (
  omega arith,
  All-weaken (At 1 (i + 1)) (At 1 i) (item_steps (i + 1) its) (λ s h. omega arith)
      (item_steps-At (i + 1) its),
)

xp_steps-At : (i : ℕ) (ts : List TrackXp) → All (At 2 i) (xp_steps i ts)
unfolding xp_steps
xp_steps-At i [] = tt
xp_steps-At i (t ∷ ts) = (
  omega arith,
  All-weaken (At 2 (i + 1)) (At 2 i) (xp_steps (i + 1) ts) (λ s h. omega arith)
      (xp_steps-At (i + 1) ts),
)

item_steps-Ordered : (i : ℕ) (its : List RewardItem) → Ordered (item_steps i its)
unfolding item_steps
item_steps-Ordered i [] = tt
item_steps-Ordered i (it ∷ its) =
    let first : RewardStep = record { stage = items; index = i; payload = item_of it } in
    (
      All-weaken (At 1 (i + 1)) (Later first) (item_steps (i + 1) its) (λ s h. ground arith)
          (item_steps-At (i + 1) its),
      item_steps-Ordered (i + 1) its,
    )

xp_steps-Ordered : (i : ℕ) (ts : List TrackXp) → Ordered (xp_steps i ts)
unfolding xp_steps
xp_steps-Ordered i [] = tt
xp_steps-Ordered i (t ∷ ts) =
    let first : RewardStep = record { stage = xp; index = i; payload = xp_of t } in
    (
      All-weaken (At 2 (i + 1)) (Later first) (xp_steps (i + 1) ts) (λ s h. ground arith)
          (xp_steps-At (i + 1) ts),
      xp_steps-Ordered (i + 1) ts,
    )

Later-stage :
    (i j m n : ℕ) (xs ys : List RewardStep)
    → i < j
    → All (At i m) xs
    → All (At j n) ys
    → All (λ x. All (Later x) ys) xs
Later-stage i j m n xs ys lt h k =
    All-weaken (At i m) (λ x. All (Later x) ys) xs
      (λ x a. All-weaken (At j n) (Later x) ys (λ y b. ground arith) k) h

currency_steps-At : (n : ℕ) → All (At 0 0) (currency_steps n)
unfolding currency_steps
currency_steps-At n = ground arith

currency_steps-Ordered : (n : ℕ) → Ordered (currency_steps n)
unfolding currency_steps
currency_steps-Ordered n = ground arith

steps-Ordered : (s : Spec) → Ordered (steps s)
unfolding steps
steps-Ordered s =
    let its = item_steps-At 0 s.reward_items in
    let ts = xp_steps-At 0 s.track_xp in
    let cs = currency_steps-At s.currency_amount in
    Ordered-append (currency_steps s.currency_amount) _ (currency_steps-Ordered s.currency_amount)
      (Ordered-append (item_steps 0 s.reward_items) (xp_steps 0 s.track_xp)
        (item_steps-Ordered 0 s.reward_items) (xp_steps-Ordered 0 s.track_xp)
        (Later-stage 1 2 0 0 (item_steps 0 s.reward_items) (xp_steps 0 s.track_xp) (omega arith) its
          ts))
      (All-weaken
        (λ x. All (Later x) (item_steps 0 s.reward_items) × All (Later x) (xp_steps 0 s.track_xp))
        (λ x. All (Later x) (item_steps 0 s.reward_items ++ xp_steps 0 s.track_xp))
        (currency_steps s.currency_amount)
        (λ x a. All-append (Later x) (item_steps 0 s.reward_items) (xp_steps 0 s.track_xp) a.0 a.1)
        (All-both (λ x. All (Later x) (item_steps 0 s.reward_items))
          (λ x. All (Later x) (xp_steps 0 s.track_xp)) (currency_steps s.currency_amount)
          (Later-stage 0 1 0 0 (currency_steps s.currency_amount) (item_steps 0 s.reward_items)
            (omega arith) cs its)
          (Later-stage 0 2 0 0 (currency_steps s.currency_amount) (xp_steps 0 s.track_xp)
            (omega arith) cs ts)))

reaches_self : (s : RewardStep) → reaches s.stage s.index s ≡ true
reaches_self s = ground arith

steps_from-Later :
    (s : RewardStep) (ss : List RewardStep) → All (Later s) ss → steps_from s.stage s.index ss ≡ ss
unfolding steps_from
steps_from-Later s [] h = refl
steps_from-Later s (t ∷ ss) (l, h) =
    let kept : reaches s.stage s.index t ≡ true = ground arith in
    rw (kept, steps_from-Later s ss h) refl

-- in an ordered plan, the steps from one on are that one and what follows it
steps_from-split :
    (pre : List RewardStep) (s : RewardStep) (post : List RewardStep)
    → Ordered (pre ++ (s ∷ post))
    → steps_from s.stage s.index (pre ++ (s ∷ post)) ≡ s ∷ post
unfolding steps_from
steps_from-split [] s post (l, h) = rw (reaches_self s, steps_from-Later s post l) refl
steps_from-split (x ∷ pre) s post (l, h) =
    let dropped : reaches s.stage s.index x ≡ false = All-middle (Later x) pre s post l in
    rw (dropped, steps_from-split pre s post h) refl

-- a cursor at a step of the plan leaves that step and what follows it
pub remaining-split :
    (hash : Spec → Text) (p : Spec) (pre : List RewardStep) (s : RewardStep)
    (post : List RewardStep)
    → pre ++ (s ∷ post) ≡ steps p
    → remaining p (some (cursor_of hash s p)) ≡ s ∷ post
unfolding remaining
remaining-split hash p pre s post e =
    rw (sym e) (steps_from-split pre s post (subst Ordered (sym e) (steps-Ordered p)))

-- what landed, then the step that failed
pub data Splits (xs : List RewardStep) (d : Delivery) : Type 0 where
  whole : d.stopped ≡ none → d.landed ≡ xs → Splits xs d
  part :
      (s : RewardStep) (post : List RewardStep)
      → d.stopped ≡ some s
      → d.landed ++ (s ∷ post) ≡ xs
      → Splits xs d

pub run_steps-Splits : (r : Runner) (xs : List RewardStep) → Splits xs (run_steps r xs)
unfolding run_steps
run_steps-Splits r [] = whole refl refl
run_steps-Splits r (s ∷ ss) = elim (Bool-cases (r s)) [
  | inr e ↦ rw e (part s ss refl refl)
  | inl e ↦ elim (run_steps-Splits r ss) [
    | whole n l ↦ rw e (whole n (ap (λ t. s ∷ t) l))
    | part f post n l ↦ rw e (part f post n (ap (λ t. s ∷ t) l))
  ]
]

-- If what remains from a cursor ends the plan, and a delivery from it stops at a step, then what
-- landed and what remains from the new cursor make up what remained, and the new cursor matches
-- the reward.
pub deliver-remaining :
    (hash : Spec → Text) (p : Spec) (r : Runner) (c : Option Cursor) (pre : List RewardStep)
    {s : RewardStep}
    → pre ++ remaining p c ≡ steps p
    → (deliver p r c).stopped ≡ some s
    → ((deliver p r c).landed ++ remaining p (some (cursor_of hash s p)) ≡ remaining p c)
      × (cursor_matches_spec hash (some (cursor_of hash s p)) p ≡ true)
unfolding deliver cursor_matches_spec
deliver-remaining hash p r c pre {s} e stop =
    let d = run_steps r (remaining p c) in
    (
      elim (run_steps-Splits r (remaining p c)) [
        | whole n l ↦ ground arith
        | part f post n l ↦
            let all : (pre ++ d.landed) ++ (f ∷ post) ≡ steps p =
              append_assoc pre d.landed (f ∷ post) ∙ ap (λ t. pre ++ t) l ∙ e in
            let same : f ≡ s = ground (arith, n, stop) in
            subst (λ i. d.landed ++ remaining p (some (cursor_of hash i p)) ≡ remaining p c) same
              (ap (λ t. d.landed ++ t) (remaining-split hash p (pre ++ d.landed) f post all) ∙ l)
      ],
      (text_eq_iff (hash p) (hash p)).1 refl,
    )
