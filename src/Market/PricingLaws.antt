-- ===== src/Market/PricingLaws.antt =====
-- `round_price`, for doubles as IEEE 754 has them.
use pelican_egg_dune_awakeni.Base.{
  ℕ, zero, suc, ◌+◌, ◌-◌, ◌*◌, ◌/◌, ◌%◌, ◌≤◌, ◌<◌, ◌≡◌, ap, subst, ◌⊎◌, Bool, true, Bool-cases, inl,
  inr, leb, arith,
}
use pelican_egg_dune_awakeni.Market.Pricing.{Floats, round_half_up, step_of, round_price}

-- Each operation rounds correctly: it keeps the order of the exact result to a number that is a
-- double itself. Such are the multiples of 2^-20 below 2^32, written here as whole numbers of 2^-20.
pub record IsDouble {F : Type 0} (fl : Floats F) : Type 0 where
  -- whether a double is at least, and at most, that many 2^-20
  pub is_at_least : F → ℕ → Bool
  pub is_at_most : F → ℕ → Bool
  pub div_at_least :
      (v step m : ℕ)
      → v < 9007199254740992
      → 0 < step
      → step < 9007199254740992
      → m < 4503599627370496
      → m * step ≤ v * 1048576
      → is_at_least (fl.div (fl.of_nat v) (fl.of_nat step)) m ≡ true
  pub div_at_most :
      (v step m : ℕ)
      → v < 9007199254740992
      → 0 < step
      → step < 9007199254740992
      → m < 4503599627370496
      → v * 1048576 ≤ m * step
      → is_at_most (fl.div (fl.of_nat v) (fl.of_nat step)) m ≡ true
  pub add_at_least :
      (x : F) (m : ℕ)
      → m + 524288 < 4503599627370496
      → is_at_least x m ≡ true
      → is_at_least (fl.add x (fl.literal "0.5")) (m + 524288) ≡ true
  pub add_at_most :
      (x : F) (m : ℕ)
      → m + 524288 < 4503599627370496
      → is_at_most x m ≡ true
      → is_at_most (fl.add x (fl.literal "0.5")) (m + 524288) ≡ true
  pub floored_at_least :
      (x : F) (k : ℕ) → k < 4294967296 → is_at_least x (k * 1048576) ≡ true → k ≤ fl.floored x
  pub floored_at_most :
      (x : F) (m k : ℕ)
      → m < 4503599627370496
      → m < (k + 1) * 1048576
      → is_at_most x m ≡ true
      → fl.floored x ≤ k

-- a multiple of `step`, at most half a step away, a half upwards
pub record IsNearest (step v p : ℕ) : Type 0 where
  pub whole : p % step ≡ 0
  pub above : 2 * p ≤ 2 * v + step
  pub below : 2 * v < 2 * p + step

-- rounded to tens below 1000, to hundreds below 10000, and so on, up to hundred thousands
abbrev pub IsNear : ℕ → ℕ → Type 0
IsNear v p =
    ((v < 1000) × IsNearest 10 v p)
    ⊎ (((1000 ≤ v) × ((v < 10000) × IsNearest 100 v p))
        ⊎ (((10000 ≤ v) × ((v < 100000) × IsNearest 1000 v p))
            ⊎ (((100000 ≤ v) × ((v < 1000000) × IsNearest 10000 v p))
                ⊎ ((1000000 ≤ v) × IsNearest 100000 v p))))

IsNear-mono : (v w p q : ℕ) → v ≤ w → IsNear v p → IsNear w q → p ≤ q
IsNear-mono v w p q h r s = ground arith

product : (m n k step : ℕ) → m + n ≡ k * 1048576 → m * step + n * step ≡ 1048576 * (k * step)
product m n k step e = let t = ap (λ x. x * step) e in grind arith

module _ {F : Type 0} (fl : Floats F) (lower : ℕ → ℕ) (ieee : IsDouble fl) where
  abbrev quotient : ℕ → ℕ → F
  quotient v step = fl.div (fl.of_nat v) (fl.of_nat step)

  -- `half` is the number of 2^-20 that lie half below `k`
  quotient_at_least :
      (v step k m : ℕ)
      → v < 1000000000000
      → 0 < step
      → step ≤ 100000
      → k ≤ 20000000
      → m + 524288 ≡ k * 1048576
      → m * step ≤ v * 1048576
      → k ≤ round_half_up fl (quotient v step)
  quotient_at_least v step k m a b c d e f =
      let q = ieee.div_at_least v step m (omega arith) b (omega arith) (omega arith) f in
      let s = ieee.add_at_least (quotient v step) m (omega arith) q in
      ieee.floored_at_least (fl.add (quotient v step) (fl.literal "0.5")) k (omega arith)
        (subst (λ n. ieee.is_at_least (fl.add (quotient v step) (fl.literal "0.5")) n ≡ true) e s)

  quotient_at_most :
      (v step k m : ℕ)
      → v < 1000000000000
      → 0 < step
      → step ≤ 100000
      → k ≤ 20000000
      → m + 524289 ≡ (k + 1) * 1048576
      → v * 1048576 ≤ m * step
      → round_half_up fl (quotient v step) ≤ k
  quotient_at_most v step k m a b c d e f =
      let q = ieee.div_at_most v step m (omega arith) b (omega arith) (omega arith) f in
      let s = ieee.add_at_most (quotient v step) m (omega arith) q in
      ieee.floored_at_most (fl.add (quotient v step) (fl.literal "0.5")) (m + 524288) k
        (omega arith) (omega arith) s

  -- the whole number nearest to the quotient
  round_half_up_low :
      (v step k : ℕ)
      → v < 1000000000000
      → 0 < step
      → step ≤ 100000
      → k ≤ 20000000
      → 2 * (k * step) ≤ 2 * v + step
      → k ≤ round_half_up fl (quotient v step)
  round_half_up_low v step zero a b c d h = omega arith
  round_half_up_low v step (suc j) a b c d h =
      let m = suc j * 1048576 - 524288 in
      let sum : m + 524288 ≡ suc j * 1048576 = omega arith in
      let spread = product m 524288 (suc j) step sum in
      quotient_at_least v step (suc j) m a b c d sum (omega arith)

  round_half_up_high :
      (v step k : ℕ)
      → v < 1000000000000
      → 0 < step
      → step ≤ 100000
      → k ≤ 20000000
      → 2 * v < 2 * (k * step) + step
      → round_half_up fl (quotient v step) ≤ k
  round_half_up_high v step k a b c d h =
      let m = (k + 1) * 1048576 - 524289 in
      let sum : m + 524289 ≡ (k + 1) * 1048576 = omega arith in
      let spread = product m 524289 (k + 1) step sum in
      let one_more : (k + 1) * step ≡ k * step + step = grind arith in
      quotient_at_most v step k m a b c d sum (omega arith)

  -- the whole number nearest to the quotient
  round_half_up-quotient :
      (v step k : ℕ)
      → v < 1000000000000
      → 0 < step
      → step ≤ 100000
      → k ≤ 20000000
      → 2 * (k * step) ≤ 2 * v + step
      → 2 * v < 2 * (k * step) + step
      → round_half_up fl (quotient v step) ≡ k
  round_half_up-quotient v step k a b c d e f =
      let low = round_half_up_low v step k a b c d e in
      let high = round_half_up_high v step k a b c d f in omega arith

  round_price-IsNear_one : (v : ℕ) → v < 1000000000000 → IsNear v (round_price fl lower v)
  unfolding round_price step_of
  round_price-IsNear_one v h = elim (Bool-cases (leb 1000000 v)) [
    | inl a ↦
        let e = round_half_up-quotient v 100000 ((2 * v + 100000) / 200000) h in
        rw a (ground (arith, e))
    | inr a ↦ elim (Bool-cases (leb 100000 v)) [
      | inl b ↦
          let e = round_half_up-quotient v 10000 ((2 * v + 10000) / 20000) h in
          rw (a, b) (ground (arith, e))
      | inr b ↦ elim (Bool-cases (leb 10000 v)) [
        | inl c ↦
            let e = round_half_up-quotient v 1000 ((2 * v + 1000) / 2000) h in
            rw (a, b, c) (ground (arith, e))
        | inr c ↦ elim (Bool-cases (leb 1000 v)) [
          | inl d ↦
              let e = round_half_up-quotient v 100 ((2 * v + 100) / 200) h in
              rw (a, b, c, d) (ground (arith, e))
          | inr d ↦
              let e = round_half_up-quotient v 10 ((2 * v + 10) / 20) h in
              rw (a, b, c, d) (ground (arith, e))
        ]
      ]
    ]
  ]

  -- On doubles whose operations round correctly, the rounded price of a price below 10^12 is one
  -- of its tens, of its hundreds from 1000 on, its thousands from 10000 on, its ten thousands
  -- from 100000 on, and its hundred thousands from 1000000 on; it is the nearest one, and of two
  -- the higher. Rounding keeps the order of prices, also of prices that are rounded differently.
  pub round_price-IsNear :
      (v w : ℕ)
      → v ≤ w
      → w < 1000000000000
      → IsNear v (round_price fl lower v) × (round_price fl lower v ≤ round_price fl lower w)
  round_price-IsNear v w h k =
      let near = round_price-IsNear_one v (omega arith) in
      (near, IsNear-mono v w _ _ h near (round_price-IsNear_one w k))
