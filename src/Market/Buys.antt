-- ===== src/Market/Buys.antt =====
-- `select_buys` and the reader of the candidates. The dice are a sequence of throws: the k-th is the
-- parameter `roll` at k.
use pelican_egg_dune_awakeni.Base.{
  ℕ, suc, Bool, false, not, ◌&&◌, ◌||◌, List, [], ◌∷◌, Option, none, some, Text, is_empty, map,
  text_eq, leb, ltb, if◌then◌else◌,
}
use pelican_egg_dune_awakeni.Base.Int.{pos}
use pelican_egg_dune_awakeni.Market.Pricing.{Floats, Item, compute_price}

-- what of an order the choice reads; prices and grades of the database are not negative
pub record Candidate : Type 0 where
  pub order_id : ℕ
  pub template : Text
  pub price : ℕ
  pub grade : ℕ

abbrev pub gamble_pass : ℕ → ℕ → Bool
gamble_pass roll target = ltb 0 target && (leb 1 roll && leb roll target)

abbrev pub listed : Text → List Text → Bool
listed t [] = false
listed t (u ∷ us) = text_eq u t || listed t us

abbrev pub item_at : Text → List (Text × Item) → Option Item
item_at t [] = none
item_at t ((u, it) ∷ items) = let rest = item_at t items in if text_eq u t then some it else rest

module _ {F : Type 0} (fl : Floats F) (lower : ℕ → ℕ) (items : List (Text × Item)) (threshold : F)
    (disabled : List Text) (roll : ℕ → ℕ) (target max_buys : ℕ) where
  abbrev pub cheap : ℕ → ℕ → Bool
  cheap ref price = not (leb ref 0) && leb price (fl.truncate (fl.mul (fl.of_nat ref) threshold))

  abbrev pub affordable : Candidate → Option Item → Bool
  affordable c none = false
  affordable c (some it) = cheap (compute_price fl lower it (pos c.grade)) c.price

  -- the conditions before the dice
  unfoldable pub eligible : Candidate → Bool
  eligible c =
      not (is_empty c.template || listed (map lower c.template) disabled)
      && affordable c (item_at c.template items)

  -- with the number of orders chosen and of throws made
  unfoldable pub select_from : List Candidate → ℕ → ℕ → List ℕ
  select_from [] chosen throws = []
  select_from (c ∷ cs) chosen throws =
      let refused = select_from cs chosen throws in
      let lost = select_from cs chosen (suc throws) in
      let won = select_from cs (suc chosen) (suc throws) in
      if leb max_buys chosen
      then []
      else if not (eligible c)
      then refused
      else if gamble_pass (roll throws) target
      then c.order_id ∷ won
      else lost

  unfoldable pub select_buys : List Candidate → List ℕ
  select_buys cs = select_from cs 0 0
