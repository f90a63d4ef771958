-- ===== src/Events/Retries.antt =====
-- `_retry_pass`: the claims that are due are distinct and pending, so none of them is touched twice.
use pelican_egg_dune_awakeni.Base.{
  ℕ, ◌≡◌, ◌⊎◌, inl, inr, refl, ap, sym, subst, ◌∙◌, true, false, ◌&&◌, ◌==◌, List, [], ◌∷◌, Option,
  none, some, Text, All, All-weaken, Bool-cases, is_empty, arith,
}
use pelican_egg_dune_awakeni.Base.Table.{find, select, find-upsert_ne}
use pelican_egg_dune_awakeni.Base.TableKeys.{NoRepeat, Holds, select-NoRepeat, select-Holds}
use pelican_egg_dune_awakeni.Events.Engine.{
  Floats, World, Game, Player, over_row, is_over, cursor_row, set_claims, key_of,
}
use pelican_egg_dune_awakeni.Events.Orderly.{landed_steps, IsOrderly, IsOrderly-same}
use pelican_egg_dune_awakeni.Events.Away.{apply_ne}
use pelican_egg_dune_awakeni.Events.Outcome.{fail_self, owed_row}
use pelican_egg_dune_awakeni.Events.Rewards.{Spec, Cursor}
use pelican_egg_dune_awakeni.Events.Rows.{record_failed-HasDistinct}
use pelican_egg_dune_awakeni.Events.Store.{
  ClaimKey, ClaimKey_Eq, same_claim, same_claim_iff, Claim, Definition, record_failed,
}
use pelican_egg_dune_awakeni.Events.Tick
use pelican_egg_dune_awakeni.Events.Ticks.{
  IsReward, IsSound, IsFine, apply-IsSound, and_then-IsFine_at,
}

-- an event that is found for a claim is one of the events, with the claim's id and version
abbrev Belongs : {F : Type 0} → (Definition F → Type 0) → ClaimKey → Option (Definition F) → Type 0
Belongs P k none = Unit
Belongs P k (some e) = P e × (key_of e k.account ≡ k)

definition_of-Belongs :
    {F : Type 0}
    → (P : Definition F → Type 0) (k : ClaimKey) (es : List (Definition F)) → All P es
    → Belongs P k (Tick.definition_of k es)
definition_of-Belongs P k [] a = tt
definition_of-Belongs P k (e ∷ es) (h, a) =
    elim (Bool-cases (e.id == k.event && e.version == k.version)) [
      | inl t ↦ rw t (h, (same_claim_iff (key_of e k.account) k).0 (ground arith))
      | inr t ↦ rw t (definition_of-Belongs P k es a)
    ]

due_under : (now : ℕ) (c : Claim) → Tick.is_due now c ≡ true → is_over c.status ≡ false
due_under now c h = ground arith

module _ {F : Type 0} (p : Spec) (j : ClaimKey) where
  record_failed-IsSound :
      (k : ClaimKey) (now : ℕ) (w : World F)
      → (same_claim k j ≡ false) ⊎ (over_row (find j w.store.claims) ≡ false)
      → IsSound p j w
      → IsSound p j
          (set_claims (record_failed k (cursor_row (find k w.store.claims)) now w.store.claims) w)
  unfolding record_failed
  record_failed-IsSound k now w free (o, d) =
      let c = cursor_row (find k w.store.claims) in
      let v = set_claims (record_failed k c now w.store.claims) w in
      (
        elim (Bool-cases (same_claim k j)) [
          | inr ne ↦ IsOrderly-same p j w v refl (find-upsert_ne j k _ _ w.store.claims ne) o
          | inl eq ↦ elim free [
            | inl ne ↦ ground arith
            | inr under ↦
                let same : k ≡ j = (same_claim_iff k j).0 eq in
                subst
                  (λ i. IsOrderly p j (
                    set_claims
                      (record_failed i (cursor_row (find i w.store.claims)) now w.store.claims) w))
                  (sym same)
                  (fail_self p j (cursor_row (find j w.store.claims)) now w o.owed o.plan (
                    owed_row p (find j w.store.claims) (landed_steps j w.trace) o.owed under o.plan
                      o.row))
          ]
        ],
        record_failed-HasDistinct k c now w d,
      )

  module _ (fl : Floats F) (hash : Spec → Text) (g : Game F) (now : ℕ) where
    retry_target-IsFine :
        (e : Definition F) (k : ClaimKey) (target : Option (Option Player)) (w : World F)
        → IsReward p j e
        → (same_claim k j ≡ false) ⊎ (over_row (find j w.store.claims) ≡ false)
        → IsSound p j w
        → IsFine p j
            (Tick.retry_target fl hash g now e k (cursor_row (find k w.store.claims)) target w)
    retry_target-IsFine e k none w own free h = h
    retry_target-IsFine e k (some none) w own free h = record_failed-IsSound k now w free h
    retry_target-IsFine e k (some (some q)) w own free h = elim (Bool-cases (is_empty q.fls)) [
      | inl nobody ↦ rw nobody (record_failed-IsSound k now w free h)
      | inr known ↦ rw known (
          apply-IsSound p j hash g e (record q { account = k.account }) now false true w own
            (inl refl) h)
    ]

    retry_claim-IsFine :
        (o : Option (Definition F)) (k : ClaimKey) (w : World F)
        → Belongs (IsReward p j) k o
        → (same_claim k j ≡ false) ⊎ (over_row (find j w.store.claims) ≡ false)
        → IsSound p j w
        → IsFine p j (Tick.retry_claim fl hash g now o k w)
    retry_claim-IsFine none k w b free h = h
    retry_claim-IsFine (some e) k w (own, b) free h =
        retry_target-IsFine e k (g.target k.account) w own free h

    -- the row of another claim is left as it is
    retry_target-find_ne :
        (e : Definition F) (k : ClaimKey) (cursor : Option Cursor) (target : Option (Option Player))
        (w : World F)
        → key_of e k.account ≡ k
        → same_claim k j ≡ false
        → find j (Tick.retry_target fl hash g now e k cursor target w).world.store.claims
          ≡ find j w.store.claims
    unfolding record_failed
    retry_target-find_ne e k cursor none w same ne = refl
    retry_target-find_ne e k cursor (some none) w same ne = find-upsert_ne j k _ _ w.store.claims ne
    retry_target-find_ne e k cursor (some (some q)) w same ne = elim (Bool-cases (is_empty q.fls)) [
      | inl nobody ↦ rw nobody (find-upsert_ne j k _ _ w.store.claims ne)
      | inr known ↦
          rw known
            (apply_ne hash g e (record q { account = k.account }) now false true w j
              (subst (λ i. same_claim i j ≡ false) (sym same) ne)).1
    ]

    retry_claim-find_ne :
        (o : Option (Definition F)) (k : ClaimKey) (w : World F)
        → Belongs (IsReward p j) k o
        → same_claim k j ≡ false
        → find j (Tick.retry_claim fl hash g now o k w).world.store.claims ≡ find j w.store.claims
    retry_claim-find_ne none k w b ne = refl
    retry_claim-find_ne (some e) k w (own, b) ne =
        retry_target-find_ne e k _ (g.target k.account) w b ne

    -- the claim comes no more, or is not over
    abbrev Untouched : List ClaimKey → World F → Type 0
    Untouched ks w =
        All (λ k. same_claim k j ≡ false) ks ⊎ (over_row (find j w.store.claims) ≡ false)

    retry_pass-IsFine :
        (es : List (Definition F)) (ks : List ClaimKey) (w : World F)
        → All (IsReward p j) es
        → NoRepeat ks
        → Untouched ks w
        → IsSound p j w
        → IsFine p j (Tick.retry_pass fl hash g now es ks w)
    unfolding Tick.retry_pass
    retry_pass-IsFine es [] w own n u h = h
    retry_pass-IsFine es (k ∷ ks) w own (once, n) u h =
        let o = Tick.definition_of k es in
        let b = definition_of-Belongs (IsReward p j) k es own in
        let r = Tick.retry_claim fl hash g now o k w in
        let free : (same_claim k j ≡ false) ⊎ (over_row (find j w.store.claims) ≡ false) = elim u [
          | inl (ne, a) ↦ inl ne
          | inr under ↦ inr under
        ] in
        let next : Untouched ks r.world = elim (Bool-cases (same_claim k j)) [
          | inl eq ↦
              let same : k ≡ j = (same_claim_iff k j).0 eq in
              inl (
                subst (λ i. All (λ l. same_claim l i ≡ false) ks) same
                  (All-weaken (λ l. same_claim k l ≡ false) (λ l. same_claim l k ≡ false) ks
                    (λ l d. ground (arith, same_claim_iff k l, same_claim_iff l k)) once))
          | inr ne ↦ elim u [
            | inl (d, a) ↦ inl a
            | inr under ↦ inr (ap over_row (retry_claim-find_ne o k w b ne) ∙ under)
          ]
        ] in
        and_then-IsFine_at p j r _ (retry_claim-IsFine o k w b free h)
          (retry_pass-IsFine es ks r.world own n next (retry_claim-IsFine o k w b free h))

    -- a claim that is over is not due
    none_over :
        (ks : List ClaimKey) (w : World F)
        → over_row (find j w.store.claims) ≡ true
        → All (Holds (λ k c. Tick.is_due now c) w.store.claims) ks
        → All (λ k. same_claim k j ≡ false) ks
    none_over [] w over h = tt
    none_over (k ∷ ks) w over ((c, at, t), h) = (
      elim (Bool-cases (same_claim k j)) [
        | inr ne ↦ ne
        | inl eq ↦
            let same : k ≡ j = (same_claim_iff k j).0 eq in
            let there : find j w.store.claims ≡ some c =
              subst (λ i. find i w.store.claims ≡ some c) same at in
            let over_c : is_over c.status ≡ true = ap over_row (sym there) ∙ over in
            ground (arith, due_under now c t)
      ],
      none_over ks w over h,
    )

    pub retries-IsFine :
        (es : List (Definition F)) (w : World F)
        → All (IsReward p j) es
        → IsSound p j w
        → IsFine p j
            (Tick.retry_pass fl hash g now es (select (λ k c. Tick.is_due now c) w.store.claims) w)
    retries-IsFine es w own h =
        let ks = select (λ k c. Tick.is_due now c) w.store.claims in
        let n = select-NoRepeat (λ k c. Tick.is_due now c) w.store.claims h.1 in
        let due = select-Holds (λ k c. Tick.is_due now c) w.store.claims h.1 in
        elim (Bool-cases (over_row (find j w.store.claims))) [
          | inl over ↦ retry_pass-IsFine es ks w own n (inl (none_over ks w over due)) h
          | inr under ↦ retry_pass-IsFine es ks w own n (inr under) h
        ]
