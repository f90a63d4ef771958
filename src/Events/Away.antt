-- ===== src/Events/Away.antt =====
-- `_apply_outcome` leaves the other claims as they are.
use pelican_egg_dune_awakeni.Base.{
  ℕ, ◌≡◌, inl, inr, refl, ap, ◌∙◌, Bool, false, not, ◌&&◌, ◌||◌, Option, none, some, Text,
  Bool-cases, is_empty,
}
use pelican_egg_dune_awakeni.Base.Table.{find, find-upsert_ne, find-update_ne}
use pelican_egg_dune_awakeni.Events.Engine.{
  World, Game, Player, set_claims, key_of, make_grant_runner, log_landed, settle, pay_out,
  apply_outcome, over_row, cursor_row,
}
use pelican_egg_dune_awakeni.Events.Rewards.{
  Spec, Cursor, cursor_matches_spec, RewardStep, is_empty_spec, deliver,
}
use pelican_egg_dune_awakeni.Events.Store.{
  ClaimKey, ClaimKey_Eq, same_claim, Definition, seal_granted, record_failed, parked, new_granted,
  now_granted,
}
use pelican_egg_dune_awakeni.Events.Orderly.{
  landed_steps, landed_steps-log_ne, log_landed-store, landed_steps-announce, announce-store,
}

module _ {F : Type 0} where
  pub settle_ne :
      (hash : Spec → Text) (p : Spec) (j k : ClaimKey) (now : ℕ) (b : Bool) (o : Option RewardStep)
      (w : World F)
      → same_claim k j ≡ false
      → (landed_steps j (settle hash p k now b o w).trace ≡ landed_steps j w.trace)
        × (find j (settle hash p k now b o w).store.claims ≡ find j w.store.claims)
  unfolding seal_granted record_failed
  settle_ne hash p j k now b none w ne =
      let v = set_claims (seal_granted k w.store.claims) w in
      (
        landed_steps-announce b j k v,
        ap (λ s. find j s.claims) (announce-store b k v)
            ∙ find-upsert_ne j k new_granted now_granted w.store.claims ne,
      )
  settle_ne hash p j k now b (some s) w ne = (refl, find-upsert_ne j k _ _ w.store.claims ne)

  -- the steps that landed for a claim and its row are the same
  abbrev pub IsAway : ClaimKey → World F → World F → Type 0
  IsAway j w v =
      (landed_steps j v.trace ≡ landed_steps j w.trace)
      × (find j v.store.claims ≡ find j w.store.claims)

  pay_ne :
      (hash : Spec → Text) (g : Game F) (q : Spec) (player : Player) (cursor : Option Cursor)
      (j k : ClaimKey) (now : ℕ) (b : Bool) (w : World F)
      → same_claim k j ≡ false
      → IsAway j w (pay_out hash g q player cursor k now b w)
  unfolding pay_out
  pay_ne hash g q player cursor j k now b w ne =
      let d = deliver q (make_grant_runner g w.trace player) cursor in
      let v = log_landed k d.landed w in
      let (t, c) = settle_ne hash q j k now b d.stopped v ne in
      (
        t ∙ landed_steps-log_ne j k d.landed w ne,
        c ∙ ap (λ s. find j s.claims) (log_landed-store k d.landed w),
      )

  pub apply_ne :
      (hash : Spec → Text) (g : Game F) (e : Definition F) (player : Player) (now : ℕ)
      (announce grant : Bool) (w : World F) (j : ClaimKey)
      → same_claim (key_of e player.account) j ≡ false
      → IsAway j w (apply_outcome hash g e player now announce grant w)
  unfolding apply_outcome
  apply_ne hash g e player now announce grant w j ne =
      let k = key_of e player.account in
      let row = find k w.store.claims in
      let speaks = announce && not (is_empty e.announce_template) in
      let sealed = settle_ne hash e.reward j k now speaks none w ne in
      let gone = find-update_ne j k parked w.store.claims ne in
      let paid = pay_ne hash g e.reward player (cursor_row row) j k now speaks w ne in
      elim (Bool-cases (over_row row)) [
        | inl over ↦ rw over (refl, refl)
        | inr under ↦ elim (Bool-cases (not grant || is_empty_spec e.reward)) [
          | inl free ↦ rw (under, free) sealed
          | inr due ↦ elim (Bool-cases (not (cursor_matches_spec hash (cursor_row row) e.reward))) [
            | inl edited ↦ rw (under, due, edited) (refl, gone)
            | inr same ↦ rw (under, due, same) paid
          ]
        ]
      ]
