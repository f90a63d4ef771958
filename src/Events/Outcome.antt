-- ===== src/Events/Outcome.antt =====
-- `_apply_outcome` and the failures of retries keep the claim that they are about orderly.
use pelican_egg_dune_awakeni.Base.{
  ℕ, ◌+◌, ◌≡◌, ◌⊎◌, inl, inr, refl, ap, sym, ◌∙◌, Bool, true, false, not, ◌&&◌, ◌||◌, List, [], ◌∷◌,
  ◌++◌, Option, none, some, Text, Bool-cases, Option-cases, is_empty, leb, arith,
}
use mathlib.Core.List.{append_assoc, append-nil}
use pelican_egg_dune_awakeni.Base.Table.{Table, find, update, find-upsert_self, find-update_self}
use pelican_egg_dune_awakeni.Events.Engine.{
  World, Game, Player, set_claims, key_of, make_grant_runner, log_landed, announce_if, pay_out,
  apply_outcome, over_row, cursor_row,
}
use pelican_egg_dune_awakeni.Events.Rewards.{
  Spec, Cursor, cursor_of, cursor_matches_spec, RewardStep, steps, remaining, is_empty_spec,
  currency_steps, item_steps, xp_steps, steps_from, deliver, run_steps,
}
use pelican_egg_dune_awakeni.Events.RewardsLaws.{whole, part, run_steps-Splits, remaining-split}
use pelican_egg_dune_awakeni.Events.Store.{
  ClaimKey, ClaimKey_Eq, Claim, Definition, seal_granted, record_failed, parked, new_granted,
  now_granted, first_failure, next_failure, max_attempts,
}
use pelican_egg_dune_awakeni.Events.Orderly.{
  landed_steps, IsRow, IsOrderly, landed_steps-log_self, landed_steps-announce, announce-store,
  IsOrderly-same,
}

steps-empty : (p : Spec) → is_empty_spec p ≡ true → steps p ≡ []
unfolding is_empty_spec steps currency_steps item_steps xp_steps
steps-empty p h = ground arith

remaining-empty : (p : Spec) (c : Option Cursor) → is_empty_spec p ≡ true → remaining p c ≡ []
unfolding remaining steps_from
remaining-empty p none h = steps-empty p h
remaining-empty p (some c) h = rw (steps-empty p h) refl

-- a claim is sealed without a delivery only if nothing is owed or nothing has landed
free_seal :
    (p : Spec) (row : Option Claim) (grant : Bool) (done owed : List RewardStep)
    → not grant || is_empty_spec p ≡ true
    → (grant ≡ true) ⊎ (row ≡ none)
    → remaining p (cursor_row row) ≡ owed
    → IsRow p row done owed
    → (owed ≡ []) ⊎ (done ≡ [])
free_seal p none grant done owed free may due r = inr r
free_seal p (some c) grant done owed free (inr e) due r = ground arith
free_seal p (some c) grant done owed free (inl e) due r =
    let bare : is_empty_spec p ≡ true = ground arith in
    inl (sym due ∙ remaining-empty p c.cursor bare)

-- what a row that is not over owes
pub owed_row :
    (p : Spec) (row : Option Claim) (done o : List RewardStep)
    → over_row row ≡ false
    → done ++ o ≡ steps p
    → IsRow p row done o
    → remaining p (cursor_row row) ≡ o
unfolding remaining
owed_row p none done o h e r = sym e ∙ rw r refl
owed_row p (some c) done o h e r = ground arith

sealed_row :
    (p : Spec) (k : ClaimKey) (rows : Table ClaimKey Claim) (done owed : List RewardStep)
    → (owed ≡ []) ⊎ (done ≡ [])
    → IsRow p (find k (seal_granted k rows)) done owed
unfolding seal_granted
sealed_row p k rows done owed h =
    let there = find-upsert_self k new_granted now_granted rows in
    elim (Option-cases (find k rows)) [ inl e ↦ rw (there, e) h | inr (c, e) ↦ rw (there, e) h ]

failed_row :
    (p : Spec) (k : ClaimKey) (cursor : Option Cursor) (now : ℕ) (rows : Table ClaimKey Claim)
    (done owed : List RewardStep)
    → remaining p cursor ≡ owed
    → IsRow p (find k (record_failed k cursor now rows)) done owed
unfolding record_failed
failed_row p k cursor now rows done owed h =
    let there = find-upsert_self k (first_failure cursor now) (next_failure cursor now) rows in
    elim (Option-cases (find k rows)) [
      | inl e ↦ rw (there, e) h
      | inr (c, e) ↦ elim (Bool-cases (leb max_attempts (c.attempts + 1))) [
        | inl last ↦ rw (there, e, last) tt
        | inr more ↦ rw (there, e, more) h
      ]
    ]

module _ {F : Type 0} where
  seal_self :
      (p : Spec) (k : ClaimKey) (w : World F) (b : Bool) (o : List RewardStep)
      → landed_steps k w.trace ++ o ≡ steps p
      → (o ≡ []) ⊎ (landed_steps k w.trace ≡ [])
      → IsOrderly p k (announce_if b k (set_claims (seal_granted k w.store.claims) w))
  seal_self p k w b o e h =
      let v = set_claims (seal_granted k w.store.claims) w in
      let sealed : IsOrderly p k v = record {
        owed = o;
        plan = e;
        row = sealed_row p k w.store.claims (landed_steps k w.trace) o h;
      } in
      IsOrderly-same p k v (announce_if b k v) (landed_steps-announce b k k v)
        (ap (λ s. find k s.claims) (announce-store b k v)) sealed

  pub fail_self :
      (p : Spec) (k : ClaimKey) (cursor : Option Cursor) (now : ℕ) (w : World F)
      (o : List RewardStep)
      → landed_steps k w.trace ++ o ≡ steps p
      → remaining p cursor ≡ o
      → IsOrderly p k (set_claims (record_failed k cursor now w.store.claims) w)
  fail_self p k cursor now w o e h = record {
    owed = o;
    plan = e;
    row = failed_row p k cursor now w.store.claims (landed_steps k w.trace) o h;
  }

  pay_self :
      (hash : Spec → Text) (g : Game F) (p : Spec) (player : Player) (cursor : Option Cursor)
      (k : ClaimKey) (now : ℕ) (b : Bool) (w : World F) (o : List RewardStep)
      → landed_steps k w.trace ++ o ≡ steps p
      → remaining p cursor ≡ o
      → IsOrderly p k (pay_out hash g p player cursor k now b w)
  unfolding pay_out deliver
  pay_self hash g p player cursor k now b w o e h =
      let d = run_steps (make_grant_runner g w.trace player) (remaining p cursor) in
      let v = log_landed k d.landed w in
      let log = landed_steps-log_self k d.landed w in
      elim (run_steps-Splits (make_grant_runner g w.trace player) (remaining p cursor)) [
        | whole n l ↦
            let all : landed_steps k v.trace ++ [] ≡ steps p =
              append-nil (landed_steps k v.trace)
              ∙ log
              ∙ ap (λ t. landed_steps k w.trace ++ t) (l ∙ h)
              ∙ e in
            rw n (seal_self p k v b [] all (inl refl))
        | part s post n l ↦
            let all : landed_steps k v.trace ++ (s ∷ post) ≡ steps p =
              ap (λ t. t ++ (s ∷ post)) log
              ∙ append_assoc (landed_steps k w.trace) d.landed (s ∷ post)
              ∙ ap (λ t. landed_steps k w.trace ++ t) (l ∙ h)
              ∙ e in
            rw n (
              fail_self p k (some (cursor_of hash s p)) now v (s ∷ post) all
                (remaining-split hash p (landed_steps k v.trace) s post all))
      ]

  park_self :
      (hash : Spec → Text) (p : Spec) (k : ClaimKey) (w : World F)
      → not (cursor_matches_spec hash (cursor_row (find k w.store.claims)) p) ≡ true
      → IsOrderly p k w
      → IsOrderly p k (set_claims (update k parked w.store.claims) w)
  unfolding cursor_matches_spec
  park_self hash p k w h o = elim (Option-cases (find k w.store.claims)) [
    | inl e ↦ ground arith
    | inr (c, e) ↦
        let gone = find-update_self k parked w.store.claims {u = c} e in
        record { owed = o.owed; plan = o.plan; row = rw gone tt }
  ]

  pub apply_self :
      (hash : Spec → Text) (g : Game F) (e : Definition F) (player : Player) (now : ℕ)
      (announce grant : Bool) (w : World F)
      → (grant ≡ true) ⊎ (find (key_of e player.account) w.store.claims ≡ none)
      → IsOrderly e.reward (key_of e player.account) w
      → IsOrderly e.reward
          (key_of e player.account)
          (apply_outcome hash g e player now announce grant w)
  unfolding apply_outcome
  apply_self hash g e player now announce grant w may o =
      let k = key_of e player.account in
      let row = find k w.store.claims in
      let speaks = announce && not (is_empty e.announce_template) in
      elim (Bool-cases (over_row row)) [
        | inl over ↦ rw over o
        | inr under ↦
            let due_now =
              owed_row e.reward row (landed_steps k w.trace) o.owed under o.plan o.row in
            elim (Bool-cases (not grant || is_empty_spec e.reward)) [
              | inl free ↦
                  rw (under, free)
                    (seal_self e.reward k w speaks o.owed o.plan (
                      free_seal e.reward row grant (landed_steps k w.trace) o.owed free may due_now
                        o.row))
              | inr due ↦
                  elim (Bool-cases (not (cursor_matches_spec hash (cursor_row row) e.reward))) [
                    | inl edited ↦ rw (under, due, edited) (park_self hash e.reward k w edited o)
                    | inr same ↦
                        rw (under, due, same)
                          (pay_self hash g e.reward player (cursor_row row) k now speaks w o.owed
                            o.plan due_now)
                  ]
            ]
      ]
