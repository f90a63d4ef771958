-- ===== src/Events/Rows.antt =====
-- The rows of the claims table stay distinct through an outcome.
use pelican_egg_dune_awakeni.Base.{
  ℕ, ◌≡◌, inl, inr, Bool, not, ◌&&◌, ◌||◌, Option, none, some, Text, Bool-cases, is_empty,
}
use pelican_egg_dune_awakeni.Base.Table.{find}
use pelican_egg_dune_awakeni.Base.TableKeys.{IsDistinct, upsert-IsDistinct, update-IsDistinct}
use pelican_egg_dune_awakeni.Events.Engine.{
  World, Game, Player, set_claims, key_of, make_grant_runner, log_landed, announce_if, settle,
  pay_out, apply_outcome, over_row, cursor_row,
}
use pelican_egg_dune_awakeni.Events.Orderly.{log_landed-store, announce-store}
use pelican_egg_dune_awakeni.Events.Rewards.{
  Spec, Cursor, RewardStep, cursor_matches_spec, is_empty_spec, deliver,
}
use pelican_egg_dune_awakeni.Events.Store.{
  ClaimKey, ClaimKey_Eq, Definition, seal_granted, record_failed, parked,
}

module _ {F : Type 0} where
  abbrev pub HasDistinct : World F → Type 0
  HasDistinct w = IsDistinct w.store.claims

  HasDistinct-same : (w v : World F) → v.store ≡ w.store → HasDistinct w → HasDistinct v
  HasDistinct-same w v e d = rw e d

  pub record_failed-HasDistinct :
      (k : ClaimKey) (cursor : Option Cursor) (now : ℕ) (w : World F)
      → HasDistinct w
      → HasDistinct (set_claims (record_failed k cursor now w.store.claims) w)
  unfolding record_failed
  record_failed-HasDistinct k cursor now w d = upsert-IsDistinct k _ _ w.store.claims d

  settle-HasDistinct :
      (hash : Spec → Text) (p : Spec) (k : ClaimKey) (now : ℕ) (b : Bool) (o : Option RewardStep)
      (w : World F)
      → HasDistinct w
      → HasDistinct (settle hash p k now b o w)
  unfolding seal_granted
  settle-HasDistinct hash p k now b none w d =
      let v = set_claims (seal_granted k w.store.claims) w in
      HasDistinct-same v (announce_if b k v) (announce-store b k v)
        (upsert-IsDistinct k _ _ w.store.claims d)
  settle-HasDistinct hash p k now b (some s) w d = record_failed-HasDistinct k _ now w d

  pay_out-HasDistinct :
      (hash : Spec → Text) (g : Game F) (p : Spec) (player : Player) (cursor : Option Cursor)
      (k : ClaimKey) (now : ℕ) (b : Bool) (w : World F)
      → HasDistinct w
      → HasDistinct (pay_out hash g p player cursor k now b w)
  unfolding pay_out
  pay_out-HasDistinct hash g p player cursor k now b w d =
      let o = deliver p (make_grant_runner g w.trace player) cursor in
      settle-HasDistinct hash p k now b o.stopped (log_landed k o.landed w)
        (HasDistinct-same w (log_landed k o.landed w) (log_landed-store k o.landed w) d)

  pub apply_outcome-HasDistinct :
      (hash : Spec → Text) (g : Game F) (e : Definition F) (player : Player) (now : ℕ)
      (announce grant : Bool) (w : World F)
      → HasDistinct w
      → HasDistinct (apply_outcome hash g e player now announce grant w)
  unfolding apply_outcome
  apply_outcome-HasDistinct hash g e player now announce grant w d =
      let k = key_of e player.account in
      let row = find k w.store.claims in
      let speaks = announce && not (is_empty e.announce_template) in
      let sealed = settle-HasDistinct hash e.reward k now speaks none w d in
      let gone = update-IsDistinct k parked w.store.claims d in
      let paid = pay_out-HasDistinct hash g e.reward player (cursor_row row) k now speaks w d in
      elim (Bool-cases (over_row row)) [
        | inl over ↦ rw over d
        | inr under ↦ elim (Bool-cases (not grant || is_empty_spec e.reward)) [
          | inl free ↦ rw (under, free) sealed
          | inr due ↦ elim (Bool-cases (not (cursor_matches_spec hash (cursor_row row) e.reward))) [
            | inl edited ↦ rw (under, due, edited) gone
            | inr same ↦ rw (under, due, same) paid
          ]
        ]
      ]
