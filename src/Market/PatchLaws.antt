-- ===== src/Market/PatchLaws.antt =====
-- What `set-config` writes keeps the configuration of the market within its ranges.
use mathlib.Core.Option.{some-injective}
use pelican_egg_dune_awakeni.Base.{
  ◌≡◌, refl, subst, Bool, true, false, Bool-cases, inl, inr, List, [], ◌∷◌, ◌++◌, Option, none,
  some, is_empty, or_else, if◌then◌else◌, arith,
}
use pelican_egg_dune_awakeni.Base.Int.{pos}
use pelican_egg_dune_awakeni.Market.Patch.{
  FloatTests, Field, absent, not_cast, cast, Patch, MarketConfig, target_above_die, num, within,
  gt_ℤ, over, float_within, clean_of, key_errors, effective, pair_errors, validate_config_patch,
  updated, set_config,
}

-- where the key is set, its value passes the test
abbrev pub Passes : {A : Type 0} → (A → Bool) → Option A → Type 0
Passes inside none = Unit
Passes inside (some v) = inside v ≡ true

module _ {F : Type 0} (fl : FloatTests F) where
  pub record InRanges (c : MarketConfig F) : Type 0 where
    pub listings : Passes (within 0 100000) c.max_listings
    pub threshold : Passes (float_within fl 0 100) c.buy_threshold
    pub die : Passes (within 1 1000) c.gamble_die
    pub target : Passes (within 0 1000) c.gamble_target
    pub buys : Passes (within 0 10000) c.max_buys_per_tick
    pub interval : Passes (within 30 86400) c.scan_interval_secs

  num-Passes : {A : Type 0} (inside : A → Bool) (f : Field A) → Passes inside (num inside f).1
  num-Passes inside absent = tt
  num-Passes inside not_cast = tt
  num-Passes inside (cast v) = elim (Bool-cases (inside v)) [ inl h ↦ rw h h | inr h ↦ rw h tt ]

  over-Passes :
      {A : Type 0} (inside : A → Bool) (f : Field A) (old : Option A)
      → Passes inside old
      → Passes inside (over (num inside f).1 old)
  over-Passes inside absent old h = h
  over-Passes inside not_cast old h = h
  over-Passes inside (cast v) old h = elim (Bool-cases (inside v)) [
    | inl t ↦ rw t t
    | inr t ↦ rw t h
  ]

  updated-InRanges :
      (p : Patch F) (c : MarketConfig F) → InRanges c → InRanges (updated fl c (clean_of fl p))
  unfolding clean_of
  updated-InRanges p c h = record {
    listings = over-Passes (within 0 100000) p.max_listings c.max_listings h.listings;
    threshold = over-Passes (float_within fl 0 100) p.buy_threshold c.buy_threshold h.threshold;
    die = over-Passes (within 1 1000) p.gamble_die c.gamble_die h.die;
    target = over-Passes (within 0 1000) p.gamble_target c.gamble_target h.target;
    buys = over-Passes (within 0 10000) p.max_buys_per_tick c.max_buys_per_tick h.buys;
    interval = over-Passes (within 30 86400) p.scan_interval_secs c.scan_interval_secs h.interval;
  }

  append-empty : {A : Type 0} (xs ys : List A) → is_empty (xs ++ ys) ≡ true → is_empty ys ≡ true
  append-empty [] ys h = h
  append-empty (x ∷ xs) ys h = ground arith

  if-empty :
      {A : Type 0} (b : Bool) (a : A) → is_empty (if b then a ∷ [] else []) ≡ true → b ≡ false
  if-empty true a h = ground arith
  if-empty false a h = refl

  if-some :
      {A : Type 0} (b : Bool) (a d : A)
      → (if b then some a else none) ≡ some d
      → (b ≡ true) × (a ≡ d)
  if-some true a d h = (refl, some-injective _ _ h)
  if-some false a d h = cc

  -- If the configuration has each of its numeric keys within its range and a patch is accepted,
  -- the configuration that is written has so too, and its gamble target is not above its die, a
  -- missing one counted as 5 and a missing other as 12; also if the patch has only one of the
  -- two.
  pub set_config-InRanges :
      (p : Patch F) (c : MarketConfig F) {d : MarketConfig F}
      → InRanges c
      → set_config fl p c ≡ some d
      → InRanges d
        × (gt_ℤ (or_else d.gamble_target (pos 5)) (or_else d.gamble_die (pos 12)) ≡ false)
  unfolding set_config validate_config_patch
  set_config-InRanges p c {d} h e =
      let clean = clean_of fl p in
      let errors = key_errors fl p ++ pair_errors fl clean c in
      let (fine, same) = if-some (is_empty errors) (updated fl c clean) d e in
      let pair = append-empty (key_errors fl p) (pair_errors fl clean c) fine in
      let above =
        gt_ℤ (effective fl 5 clean.gamble_target c.gamble_target)
          (effective fl 12 clean.gamble_die c.gamble_die) in
      (
        subst InRanges same (updated-InRanges p c h),
        subst (λ x. gt_ℤ (or_else x.gamble_target (pos 5)) (or_else x.gamble_die (pos 12)) ≡ false)
            same (if-empty above target_above_die pair),
      )
