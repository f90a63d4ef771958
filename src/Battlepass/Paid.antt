-- ===== src/Battlepass/Paid.antt =====
-- How often a tier has been paid to an account, and what one delivery does to that.
use pelican_egg_dune_awakeni.Base.{
  ℕ, ◌+◌, ◌≡◌, ◌⊎◌, inl, inr, refl, ap, sym, subst, ◌∙◌, Bool, true, false, ◌&&◌, List, [], ◌∷◌,
  Text, Bool-cases, Option-cases, is_some, if◌then◌else◌, ltb, arith,
}
use pelican_egg_dune_awakeni.Base.Int.{ℤ}
use pelican_egg_dune_awakeni.Base.Table.{
  Table, find, update, find-update_self, find-update_ne, is_some-update,
}
use pelican_egg_dune_awakeni.Battlepass.Store.{
  Key, Key_Eq, same_key, same_key_iff, key_of, Item, Tier, Grant, granted,
}
use pelican_egg_dune_awakeni.Battlepass.Deliver.{
  Event, awarded, gave, World, Award, exit_is, seal, postpone, count_failure, set_grant,
  grant_claim, give_items, settle, after_award, award_intel, pay, sealed_row, earned_row,
  deliver_grant,
}

abbrev pub is_paid : Key → Event → Bool
is_paid k (awarded j fls n rc) = same_key j k && exit_is 0 rc
is_paid k (gave fls i) = false

-- the confirmed awards of the tier to the account
unfoldable pub times_paid : Key → List Event → ℕ
times_paid k [] = 0
times_paid k (e ∷ es) = (if is_paid k e then 1 else 0) + times_paid k es

-- not paid, or paid once and sealed
abbrev pub IsPaidOnce : Key → World → Type 0
IsPaidOnce k w =
    (times_paid k w.trace ≡ 0)
    ⊎ ((times_paid k w.trace ≡ 1) × (sealed_row (find k w.store.ledger) ≡ true))

give_items-store : (fls : Text) (is : List Item) (w : World) → (give_items fls is w).store ≡ w.store
unfolding give_items
give_items-store fls [] w = refl
give_items-store fls (i ∷ is) w =
    give_items-store fls is (record w { trace = gave fls i ∷ w.trace })

times_paid-give_items :
    (k : Key) (fls : Text) (is : List Item) (w : World)
    → times_paid k (give_items fls is w).trace ≡ times_paid k w.trace
unfolding give_items times_paid
times_paid-give_items k fls [] w = refl
times_paid-give_items k fls (i ∷ is) w =
    ground (arith, times_paid-give_items k fls is (record w { trace = gave fls i ∷ w.trace }))

settle-ledger :
    (t : Tier) (k : Key) (fls : Text) (w : World)
    → (settle t k fls w).store.ledger ≡ update k seal w.store.ledger
unfolding settle set_grant grant_claim
settle-ledger t k fls w =
    ap (λ s. s.ledger) (give_items-store fls t.reward_items (set_grant k seal (grant_claim k w)))

pub settle-claims :
    (t : Tier) (k : Key) (fls : Text) (w : World)
    → (settle t k fls w).store.claims ≡ update k (λ c. granted) w.store.claims
unfolding settle set_grant grant_claim
settle-claims t k fls w =
    ap (λ s. s.claims) (give_items-store fls t.reward_items (set_grant k seal (grant_claim k w)))

times_paid-settle :
    (j : Key) (t : Tier) (k : Key) (fls : Text) (w : World)
    → times_paid j (settle t k fls w).trace ≡ times_paid j w.trace
unfolding settle set_grant grant_claim
times_paid-settle j t k fls w =
    times_paid-give_items j fls t.reward_items (set_grant k seal (grant_claim k w))

-- What a delivery for the key `k` writes: nothing, or a change of the ledger's row, and it pays
-- `k` only if that seals the row.
pub data Writes (k : Key) (w : World) : World → Type 0 where
  unchanged : Writes k w w
  changed_row :
      {w' : World} (f : Grant → Grant)
      → w'.store.ledger ≡ update k f w.store.ledger
      → ((j : Key) → times_paid j w'.trace ≡ times_paid j w.trace)
      → Writes k w w'
  paid_row :
      {w' : World}
      → w'.store.ledger ≡ update k seal w.store.ledger
      → ((j : Key) → times_paid j w'.trace ≡ (if same_key k j then 1 else 0) + times_paid j w.trace)
      → Writes k w w'

after_award-Writes :
    (rc : ℤ) (t : Tier) (k : Key) (fls : Text) (n now : ℕ) (w : World)
    → Writes k w (after_award rc t k fls now (record w { trace = awarded k fls n rc ∷ w.trace })).0
unfolding after_award set_grant times_paid
after_award-Writes rc t k fls n now w = elim (Bool-cases (exit_is 4 rc)) [
  | inl four ↦ rw four (changed_row (postpone now) refl (λ j. ground arith))
  | inr other ↦ elim (Bool-cases (exit_is 0 rc)) [
    | inr bad ↦ rw (other, bad) (changed_row (count_failure now) refl (λ j. ground arith))
    | inl fine ↦
        rw (other, fine)
          (paid_row (settle-ledger t k fls _) (λ j. ground (
            arith,
            times_paid-settle j t k fls (record w { trace = awarded k fls n rc ∷ w.trace }),
          )))
  ]
]

-- a sealed row ends the delivery at once
pub deliver_grant-Writes :
    (award : Award) (t : Tier) (account : ℕ) (fls : Text) (now : ℕ) (w : World)
    → ((deliver_grant award t account fls now w).0 ≡ w)
      ⊎ ((sealed_row (find (key_of t account) w.store.ledger) ≡ false)
          × Writes (key_of t account) w (deliver_grant award t account fls now w).0)
unfolding deliver_grant pay award_intel set_grant
deliver_grant-Writes award t account fls now w =
    let k = key_of t account in
    elim (Bool-cases (sealed_row (find k w.store.ledger))) [
      | inl e ↦ inl (rw e refl)
      | inr e ↦ inr (
        e,
        elim (Bool-cases (earned_row (find k w.store.claims))) [
          | inr lost ↦ rw (e, lost) (changed_row seal refl (λ j. refl))
          | inl won ↦ elim (Bool-cases (ltb 0 t.intel)) [
            | inl some_intel ↦
                rw (e, won, some_intel)
                  (after_award-Writes (award w.trace fls t.intel) t k fls t.intel now w)
            | inr none_left ↦
                rw (e, won, none_left)
                  (changed_row seal (settle-ledger t k fls w) (λ j. times_paid-settle j t k fls w))
          ]
        ],
      )
    ]

Writes-rows :
    (k : Key) {w w' : World}
    → Writes k w w'
    → (j : Key) → is_some (find j w'.store.ledger) ≡ is_some (find j w.store.ledger)
Writes-rows k unchanged j = refl
Writes-rows k {w} (changed_row f e p) j = rw e (is_some-update j k f w.store.ledger)
Writes-rows k {w} (paid_row e p) j = rw e (is_some-update j k seal w.store.ledger)

sealed_self :
    (k : Key) (rows : Table Key Grant)
    → is_some (find k rows) ≡ true
    → sealed_row (find k (update k seal rows)) ≡ true
sealed_self k rows h = elim (Option-cases (find k rows)) [
  | inl e ↦ ground arith
  | inr (g, e) ↦ rw (find-update_self k seal rows {u = g} e) refl
]

Writes-IsPaidOnce :
    (k : Key) {w w' : World}
    → Writes k w w'
    → sealed_row (find k w.store.ledger) ≡ false
    → is_some (find k w.store.ledger) ≡ true
    → (j : Key) → IsPaidOnce j w
    → IsPaidOnce j w'
Writes-IsPaidOnce k unchanged ns row j h = h
Writes-IsPaidOnce k {w} (changed_row f e p) ns row j (inl z) = inl (p j ∙ z)
Writes-IsPaidOnce k {w} (changed_row f e p) ns row j (inr (one, s)) =
    elim (Bool-cases (same_key k j)) [
      | inl eq ↦ let same : k ≡ j = (same_key_iff k j).0 eq in cc
      | inr ne ↦ inr (p j ∙ one, rw (e, find-update_ne j k f w.store.ledger ne) s)
    ]
Writes-IsPaidOnce k {w} {w'} (paid_row e p) ns row j h = elim (Bool-cases (same_key k j)) [
  | inr ne ↦
      let kept = find-update_ne j k seal w.store.ledger ne in
      let all = p j in
      let count : times_paid j w'.trace ≡ times_paid j w.trace = ground arith in
      elim h [ inl z ↦ inl (count ∙ z) | inr (one, s) ↦ inr (count ∙ one, rw (e, kept) s) ]
  | inl eq ↦
      let same : k ≡ j = (same_key_iff k j).0 eq in
      let now_sealed = sealed_self k w.store.ledger row in
      let count = p j in
      elim h [ inl z ↦ inr (ground arith, rw (e, sym same) now_sealed) | inr (one, s) ↦ cc ]
]

pub deliver_grant-IsPaidOnce :
    (award : Award) (t : Tier) (account : ℕ) (fls : Text) (now : ℕ) (w : World) (j : Key)
    → is_some (find (key_of t account) w.store.ledger) ≡ true
    → IsPaidOnce j w
    → IsPaidOnce j (deliver_grant award t account fls now w).0
deliver_grant-IsPaidOnce award t account fls now w j row h =
    elim (deliver_grant-Writes award t account fls now w) [
      | inl e ↦ subst (λ v. IsPaidOnce j v) (sym e) h
      | inr (ns, wr) ↦ Writes-IsPaidOnce (key_of t account) wr ns row j h
    ]

pub deliver_grant-rows :
    (award : Award) (t : Tier) (account : ℕ) (fls : Text) (now : ℕ) (w : World) (j : Key)
    → is_some (find j (deliver_grant award t account fls now w).0.store.ledger)
      ≡ is_some (find j w.store.ledger)
deliver_grant-rows award t account fls now w j =
    elim (deliver_grant-Writes award t account fls now w) [
      | inl e ↦ ap (λ v. is_some (find j v.store.ledger)) e
      | inr (ns, wr) ↦ Writes-rows (key_of t account) wr j
    ]

pub settle-seen :
    (t : Tier) (k : Key) (fls : Text) (w : World) → (settle t k fls w).store.seen ≡ w.store.seen
unfolding settle set_grant grant_claim
settle-seen t k fls w =
    ap (λ s. s.seen) (give_items-store fls t.reward_items (set_grant k seal (grant_claim k w)))
