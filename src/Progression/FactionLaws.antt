-- ===== src/Progression/FactionLaws.antt =====
-- Tiers are the thresholds reached, a tier set is the tier shown, and reputation stays in its cap.
use pelican_egg_dune_awakeni.Base.{
  ℕ, zero, suc, ◌+◌, ◌≤◌, ◌<◌, ◌≡◌, ◌↔◌, ◌⊎◌, inl, inr, refl, true, false, List, [], ◌∷◌, none,
  some, ltb, if◌then◌else◌, not, subst, sym, ◌∙◌, All-weaken, Bool-cases, length, arith,
}
use pelican_egg_dune_awakeni.Base.Int.{ℤ, pos, negsuc, ◌+ℤ◌}
use pelican_egg_dune_awakeni.Progression.Tables.{
  FactionTable, get_elem?, Spread, get_elem?-length, get_elem?-Spread,
}
use pelican_egg_dune_awakeni.Progression.Faction.{
  tiers_reached, rep_to_tier, tier_to_rep, max_tier, TierOutcome, faction_tier_outcome,
  faction_rep_outcome, clamp_faction_rep, same,
}
use pelican_egg_dune_awakeni.Progression.Level.{clamp}
use pelican_egg_dune_awakeni.Progression.Outcomes.{IsClamped, clamp-IsClamped}

tiers_reached_iff :
    (vs : List ℕ) (rep j v : ℕ)
    → Spread 0 vs
    → get_elem? vs j ≡ some v
    → (j < tiers_reached vs rep) ↔ (v ≤ rep)
unfolding tiers_reached
tiers_reached_iff [] rep j v s e = ground arith
tiers_reached_iff (x ∷ xs) rep zero v s e = ground arith
tiers_reached_iff (x ∷ xs) rep (suc j) v s e =
    let le = get_elem?-Spread 0 (x ∷ xs) 0 (suc j) {v = x} {w = v} s (omega arith) refl e in
    ground (arith, tiers_reached_iff xs rep j v (s.1) e)

tiers_reached-length : (vs : List ℕ) (rep : ℕ) → tiers_reached vs rep ≤ length vs
unfolding tiers_reached
tiers_reached-length [] rep = omega arith
tiers_reached-length (v ∷ vs) rep = ground (arith, tiers_reached-length vs rep)

-- A tier above 0 is at most the tier of a reputation exactly if the reputation reaches its
-- threshold, for thresholds that never decrease.
pub rep_to_tier_iff :
    (thresholds : List ℕ) (rep j v : ℕ)
    → Spread 0 thresholds
    → 0 < j
    → get_elem? thresholds j ≡ some v
    → (j ≤ rep_to_tier thresholds rep) ↔ (v ≤ rep)
unfolding rep_to_tier
rep_to_tier_iff [] rep j v s h e = ground arith
rep_to_tier_iff (x ∷ xs) rep zero v s h e = absurd (omega arith)
rep_to_tier_iff (x ∷ xs) rep (suc j) v s h e =
    let (f, g) = tiers_reached_iff xs rep j v (s.1) e in
    (λ le. f (omega arith), λ le. let lt = g le in omega arith)

rep_to_tier-max : (thresholds : List ℕ) (rep : ℕ) → rep_to_tier thresholds rep ≤ max_tier thresholds
unfolding rep_to_tier
rep_to_tier-max [] rep = omega arith
rep_to_tier-max (x ∷ xs) rep = omega (arith, tiers_reached-length xs rep)

Spread-weaken : (g : ℕ) (xs : List ℕ) → Spread g xs → Spread 0 xs
Spread-weaken g [] s = tt
Spread-weaken g (x ∷ xs) (a, s) =
    (All-weaken (λ y. x + g ≤ y) (λ y. x + 0 ≤ y) xs (λ y h. omega arith) a, Spread-weaken g xs s)

-- reputation from the threshold of a tier on, and short of the next one, shows the tier
rep_to_tier-between :
    (thresholds : List ℕ) (t v r : ℕ)
    → Spread 2 thresholds
    → get_elem? thresholds t ≡ some v
    → v ≤ r
    → r ≤ v + 1
    → rep_to_tier thresholds r ≡ t
rep_to_tier-between thresholds t v r s e lo hi =
    let bound = rep_to_tier-max thresholds r in
    let s0 = Spread-weaken 2 thresholds s in
    let at_least : t ≤ rep_to_tier thresholds r = elim (Bool-cases (ltb 0 t)) [
      | inl some_tier ↦ (rep_to_tier_iff thresholds r t v s0 (ground arith) e).1 lo
      | inr zero_tier ↦ ground arith
    ] in
    elim (Bool-cases (ltb t (rep_to_tier thresholds r))) [
      | inr same ↦ ground arith
      | inl more ↦
          let lt : t < rep_to_tier thresholds r = ground arith in
          let (w, next) = get_elem?-length thresholds (suc t) (omega arith) in
          let far =
            get_elem?-Spread 2 thresholds t (suc t) {v = v} {w = w} s (omega arith) e next in
          let near =
            (rep_to_tier_iff thresholds r (suc t) w s0 (omega arith) next).0 (omega arith) in
          absurd (omega arith)
    ]

-- the thresholds that lie below a reputation, up to the first that does not
unfoldable pub passed : List ℕ → ℕ → ℕ
passed [] rep = 0
passed (v ∷ vs) rep = if ltb v rep then suc (passed vs rep) else 0

-- The tier that the screen of the game has for a reputation: at a threshold, still the tier below.
unfoldable pub displayed_tier : List ℕ → ℕ → ℕ
displayed_tier [] rep = 0
displayed_tier (v ∷ vs) rep = passed vs rep

passed-tiers_reached : (vs : List ℕ) (rep : ℕ) → passed vs (rep + 1) ≡ tiers_reached vs rep
unfolding passed tiers_reached
passed-tiers_reached [] rep = refl
passed-tiers_reached (v ∷ vs) rep = ground (arith, passed-tiers_reached vs rep)

displayed_tier_past :
    (thresholds : List ℕ) (rep : ℕ)
    → displayed_tier thresholds (rep + 1) ≡ rep_to_tier thresholds rep
unfolding displayed_tier rep_to_tier
displayed_tier_past [] rep = refl
displayed_tier_past (v ∷ vs) rep = passed-tiers_reached vs rep

displayed_tier_least :
    (thresholds : List ℕ) (v : ℕ)
    → Spread 2 thresholds
    → get_elem? thresholds 0 ≡ some v
    → displayed_tier thresholds v ≡ 0
unfolding displayed_tier passed
displayed_tier_least [] v s e = refl
displayed_tier_least (x ∷ []) v s e = refl
displayed_tier_least (x ∷ y ∷ ys) v s e = ground arith

-- A reputation that stands for a tier: the game displays the tier, and so does `rep_to_tier`.
abbrev pub LandsOn : List ℕ → ℕ → ℕ → Type 0
LandsOn thresholds tier rep =
    (displayed_tier thresholds rep ≡ tier) × (rep_to_tier thresholds rep ≡ tier)

-- a tier that is set is the tier shown
tier_to_rep-LandsOn :
    (thresholds : List ℕ) (t : ℕ)
    → Spread 2 thresholds
    → t < length thresholds
    → (r : ℕ) × (tier_to_rep thresholds (pos t) ≡ some r) × LandsOn thresholds t r
unfolding tier_to_rep
tier_to_rep-LandsOn thresholds t s h =
    let (v, e) = get_elem?-length thresholds t h in
    let inside : ltb (max_tier thresholds) t ≡ false = ground arith in
    elim (Bool-cases (ltb 0 t)) [
      | inl up ↦
          let at = rep_to_tier-between thresholds t v v s e (omega arith) (omega arith) in
          let past = rep_to_tier-between thresholds t v (v + 1) s e (omega arith) (omega arith) in
          rw (inside, e, up) (v + 1, refl, (displayed_tier_past thresholds v ∙ at, past))
      | inr least ↦
          let here = rep_to_tier-between thresholds t v v s e (omega arith) (omega arith) in
          let zero_tier : t ≡ 0 = ground arith in
          let first = subst (λ n. get_elem? thresholds n ≡ some v) zero_tier e in
          let low = displayed_tier_least thresholds v s first ∙ sym zero_tier in
          rw (inside, e, least) (v, refl, (low, here))
    ]

same_iff : (n : ℕ) (z : ℤ) → (not (same n z) ≡ false) ↔ (pos n ≡ z)
same_iff n (pos m) = ground arith
same_iff n (negsuc m) = ground arith

-- A change of reputation gives the sum brought between 0 and the cap, is flagged as capped
-- exactly if that is not the sum, and shows a tier above 0 or a higher one exactly if the new
-- reputation reaches the threshold of that tier, for thresholds that never decrease.
pub faction_rep_outcome-IsClamped :
    (t : FactionTable) (current : ℕ) (delta : ℤ) (faction_id j v : ℕ)
    → Spread 0 t.tier_thresholds
    → 0 < j
    → get_elem? t.tier_thresholds j ≡ some v
    → IsClamped t.rep_cap
        (pos current +ℤ delta)
        (faction_rep_outcome t current delta faction_id).new_rep
      × (((faction_rep_outcome t current delta faction_id).capped ≡ false)
          ↔ (pos (faction_rep_outcome t current delta faction_id).new_rep ≡ pos current +ℤ delta))
      × ((j ≤ (faction_rep_outcome t current delta faction_id).tier)
          ↔ (v ≤ (faction_rep_outcome t current delta faction_id).new_rep))
unfolding faction_rep_outcome clamp_faction_rep
faction_rep_outcome-IsClamped t current delta faction_id j v s h e = (
  clamp-IsClamped t.rep_cap (pos current +ℤ delta),
  same_iff (clamp t.rep_cap (pos current +ℤ delta)) (pos current +ℤ delta),
  rep_to_tier_iff t.tier_thresholds (clamp t.rep_cap (pos current +ℤ delta)) j v s h e,
)

tier_to_rep-none :
    (thresholds : List ℕ) (t : ℕ)
    → 0 < length thresholds
    → length thresholds ≤ t
    → tier_to_rep thresholds (pos t) ≡ none
unfolding tier_to_rep
tier_to_rep-none thresholds t some_tier h =
    let e : ltb (max_tier thresholds) t ≡ true = ground arith in rw e refl

-- If the thresholds lie at least 2 apart and there are any, a tier of the table has an outcome,
-- and for the reputation that it sets this tier is displayed by the game, which still shows the
-- tier below at a threshold, and found by `rep_to_tier`; a higher tier has none.
pub faction_tier_outcome-shown :
    (t : FactionTable) (faction_id tier : ℕ)
    → Spread 2 t.tier_thresholds
    → 0 < length t.tier_thresholds
    → ((o : TierOutcome) × (faction_tier_outcome t faction_id (pos tier) ≡ some o)
        × (o.tier ≡ tier)
        × LandsOn t.tier_thresholds tier o.rep)
      ⊎ ((faction_tier_outcome t faction_id (pos tier) ≡ none) × (length t.tier_thresholds ≤ tier))
unfolding faction_tier_outcome
faction_tier_outcome-shown t faction_id tier s h =
    elim (Bool-cases (ltb tier (length t.tier_thresholds))) [
      | inl inside ↦
          let (r, e, shown) = tier_to_rep-LandsOn t.tier_thresholds tier s (ground arith) in
          inl (rw e (_, refl, refl, shown))
      | inr outside ↦
          let e = tier_to_rep-none t.tier_thresholds tier h (ground arith) in
          inr (rw e refl, ground arith)
    ]
