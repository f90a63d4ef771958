-- ===== src/Market/BuysLaws.antt =====
-- The loop of `select_buys`, which stops early, against the orders that would win without a limit.
use pelican_egg_dune_awakeni.Base.{
  ℕ, zero, suc, ◌+◌, ◌≤◌, ◌≡◌, refl, ap, true, false, not, Bool-cases, inl, inr, List, [], ◌∷◌,
  Text, leb, length, if◌then◌else◌, arith,
}
use pelican_egg_dune_awakeni.Market.Buys.{
  Candidate, gamble_pass, eligible, select_from, select_buys,
}
use pelican_egg_dune_awakeni.Market.Pricing.{Floats, Item, first_of}

first_of-length_le : {A : Type 0} (n : ℕ) (xs : List A) → length (first_of n xs) ≤ n
first_of-length_le zero xs = omega arith
first_of-length_le (suc n) [] = omega arith
first_of-length_le (suc n) (x ∷ xs) = omega (arith, first_of-length_le n xs)

module _ {F : Type 0} (fl : Floats F) (lower : ℕ → ℕ) (items : List (Text × Item)) (threshold : F)
    (disabled : List Text) (roll : ℕ → ℕ) (target max_buys : ℕ) where
  -- The dice are thrown once for each eligible candidate, in order.
  abbrev pub winners : List Candidate → ℕ → List ℕ
  winners [] throws = []
  winners (c ∷ cs) throws =
      let refused = winners cs throws in
      let later = winners cs (suc throws) in
      if not (eligible fl lower items threshold disabled roll target max_buys c)
      then refused
      else if gamble_pass (roll throws) target
      then c.order_id ∷ later
      else later

  -- with the number of orders that may still be chosen
  select_from-winners :
      (cs : List Candidate) (chosen throws n : ℕ)
      → max_buys ≡ chosen + n
      → select_from fl lower items threshold disabled roll target max_buys cs chosen throws
        ≡ first_of n (winners cs throws)
  unfolding select_from
  select_from-winners [] chosen throws zero h = refl
  select_from-winners [] chosen throws (suc n) h = refl
  select_from-winners (c ∷ cs) chosen throws zero h =
      let stop : leb max_buys chosen ≡ true = ground (arith, h) in rw stop refl
  select_from-winners (c ∷ cs) chosen throws (suc n) h =
      let on : leb max_buys chosen ≡ false = ground (arith, h) in
      elim (Bool-cases (eligible fl lower items threshold disabled roll target max_buys c)) [
        | inr e ↦ rw (on, e) (select_from-winners cs chosen throws (suc n) h)
        | inl e ↦ elim (Bool-cases (gamble_pass (roll throws) target)) [
          | inl g ↦
              rw (on, e, g)
                (ap (λ l. c.order_id ∷ l)
                  (select_from-winners cs (suc chosen) (suc throws) n (omega (arith, h))))
          | inr g ↦ rw (on, e, g) (select_from-winners cs chosen (suc throws) (suc n) h)
        ]
      ]

  -- The orders chosen, by a loop that stops at its limit, are the first ones up to the limit of
  -- all orders that win if the dice are thrown once for every eligible candidate, in order; they
  -- are at most as many as the limit.
  pub select_buys-winners :
      (cs : List Candidate)
      → (select_buys fl lower items threshold disabled roll target max_buys cs
          ≡ first_of max_buys (winners cs 0))
        × (length (select_buys fl lower items threshold disabled roll target max_buys cs)
            ≤ max_buys)
  unfolding select_buys
  select_buys-winners cs =
      let e = select_from-winners cs 0 0 max_buys (omega arith) in
      (e, rw e (first_of-length_le max_buys (winners cs 0)))
