-- ===== src/Battlepass/ByHand.antt =====
-- Manual grants and resets pay nothing twice either.
use pelican_egg_dune_awakeni.Base.{
  ℕ, ◌≡◌, inl, inr, refl, true, ◌&&◌, ◌||◌, not, List, [], ◌∷◌, Option, none, some, Text,
  Bool-cases, Option-cases, is_empty, arith, ◌==◌,
}
use pelican_egg_dune_awakeni.Base.Table.{find, select, find-upsert_self, find-keep}
use pelican_egg_dune_awakeni.Battlepass.Store.{
  Key, Key_Eq, key_of, Tier, Store, is_sealed, is_earned, in_scope, Mode, demote, purge,
  enqueue_grant, reset_claims, drop_unsealed,
}
use pelican_egg_dune_awakeni.Battlepass.Deliver.{World, Award, sealed_row}
use pelican_egg_dune_awakeni.Battlepass.Tick.{
  is_retry, counted, nothing, tier_by_key, Granted, grant_tier, grant_earned, granted_to,
  grant_account,
}
use pelican_egg_dune_awakeni.Battlepass.Paid.{IsPaidOnce, deliver_grant-IsPaidOnce}
use pelican_egg_dune_awakeni.Battlepass.PaidOnce.{HasRow, IsPaidOnce-moved, sealed-insert}

enqueue_grant-IsPaidOnce :
    (k : Key) (w : World) (j : Key)
    → IsPaidOnce j w
    → IsPaidOnce j (record w { store = enqueue_grant k w.store })
unfolding enqueue_grant
enqueue_grant-IsPaidOnce k w j h =
    IsPaidOnce-moved j w (record w { store = enqueue_grant k w.store }) refl
      (sealed-insert j k _ w.store.ledger) h

enqueue_grant-row : (k : Key) (w : World) → HasRow (record w { store = enqueue_grant k w.store }) k
unfolding enqueue_grant
enqueue_grant-row k w = rw (find-upsert_self k _ (λ u. u) w.store.ledger) refl

grant_tier-IsPaidOnce :
    (award : Award) (t : Option Tier) (account : ℕ) (fls : Text) (now : ℕ) (w : World) (j : Key)
    → IsPaidOnce j w
    → IsPaidOnce j (grant_tier award t account fls now w).0
grant_tier-IsPaidOnce award none account fls now w j h = h
grant_tier-IsPaidOnce award (some t) account fls now w j h =
    let k = key_of t account in
    deliver_grant-IsPaidOnce award t account fls now _ j (enqueue_grant-row k w)
      (enqueue_grant-IsPaidOnce k w j h)

grant_earned-IsPaidOnce :
    (award : Award) (account : ℕ) (fls : Text) (now : ℕ) (ks : List Key) (w : World) (r : Granted)
    (j : Key)
    → IsPaidOnce j w
    → IsPaidOnce j (grant_earned award account fls now ks w r).0
unfolding grant_earned
grant_earned-IsPaidOnce award account fls now [] w r j h = h
grant_earned-IsPaidOnce award account fls now (k ∷ ks) w r j h =
    let step = grant_tier award (tier_by_key k.tier_key w.store.tiers) account fls now w in
    let h' =
      grant_tier-IsPaidOnce award (tier_by_key k.tier_key w.store.tiers) account fls now w j h in
    elim (Bool-cases (is_retry step.1)) [
      | inl e ↦ rw e h'
      | inr e ↦
          rw e (grant_earned-IsPaidOnce award account fls now ks step.0 (counted step.1 r) j h')
    ]

granted_to-IsPaidOnce :
    (award : Award) (target : Option Text) (account now : ℕ) (ks : List Key) (w : World) (j : Key)
    {v : World} {r : Granted}
    → granted_to award target account now ks w ≡ some (v, r)
    → IsPaidOnce j w
    → IsPaidOnce j v
granted_to-IsPaidOnce award none account now ks w j e h = ground arith
granted_to-IsPaidOnce award (some fls) account now ks w j {v} {r} e h =
    let h' = grant_earned-IsPaidOnce award account fls now ks w nothing j h in
    elim (Bool-cases (is_empty fls)) [
      | inl none_left ↦ ground arith
      | inr target_found ↦ ground arith
    ]

pub grant_account-IsPaidOnce :
    (award : Award) (target : Option Text) (account now : ℕ) (w : World) (j : Key) {v : World}
    {r : Granted}
    → grant_account award target account now w ≡ some (v, r)
    → IsPaidOnce j w
    → IsPaidOnce j v
unfolding grant_account
grant_account-IsPaidOnce award target account now w j {v} {r} e h =
    let ks = select (λ k c. k.account == account && is_earned c) w.store.claims in
    elim (Bool-cases (is_empty ks)) [
      | inl idle ↦ ground arith
      | inr busy ↦
          let run : granted_to award target account now ks w ≡ some (v, r) = simp busy at e in
          granted_to-IsPaidOnce award target account now ks w j {v = v} {r = r} run h
    ]

drop_unsealed-sealed :
    (account : ℕ) (s : Store) (j : Key)
    → sealed_row (find j s.ledger) ≡ true
    → sealed_row (find j (drop_unsealed account s).ledger) ≡ true
unfolding drop_unsealed
drop_unsealed-sealed account s j h = elim (Option-cases (find j s.ledger)) [
  | inl e ↦ ground arith
  | inr (g, e) ↦
      let is : is_sealed g.status ≡ true = ground arith in
      rw
        (find-keep j (λ k g. not (in_scope account k) || is_sealed g.status) s.ledger {u = g} e
          (ground arith))
        is
]

reset_claims-ledger :
    (m : Mode) (account : ℕ) (s : Store)
    → (reset_claims m account s).ledger ≡ (drop_unsealed account s).ledger
unfolding reset_claims
reset_claims-ledger demote account s = refl
reset_claims-ledger purge account s = refl

pub reset_claims-IsPaidOnce :
    (m : Mode) (account : ℕ) (w : World) (j : Key)
    → IsPaidOnce j w
    → IsPaidOnce j (record w { store = reset_claims m account w.store })
reset_claims-IsPaidOnce m account w j h =
    IsPaidOnce-moved j w (record w { store = reset_claims m account w.store }) refl
      (λ r. rw (reset_claims-ledger m account w.store) (drop_unsealed-sealed account w.store j r)) h
