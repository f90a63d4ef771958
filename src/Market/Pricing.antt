-- ===== src/Market/Pricing.antt =====
-- The prices, and `build_listings`. Floats are a parameter. Of a catalogue's numbers none is
-- negative.
use pelican_egg_dune_awakeni.Base.{
  ℕ, zero, suc, ◌*◌, ◌==◌, Bool, not, ◌||◌, List, [], ◌∷◌, map, Option, none, some, String, Text,
  codes, strip, text_eq, leb, ltb, min, max, if◌then◌else◌,
}
use pelican_egg_dune_awakeni.Base.Int.{ℤ, pos, negsuc}
use pelican_egg_dune_awakeni.Market.Category.{category_for}

-- of the floats that are not negative
pub record Floats (F : Type 0) : Type 0 where
  pub of_nat : ℕ → F
  pub literal : String → F
  pub mul : F → F → F
  pub div : F → F → F
  pub add : F → F → F
  -- `int(math.floor(x))`
  pub floored : F → ℕ
  -- `int(x)`
  pub truncate : F → ℕ

-- `_round_half_up`
abbrev pub round_half_up : {F : Type 0} → Floats F → F → ℕ
round_half_up fl x = fl.floored (fl.add x (fl.literal "0.5"))

-- an item of the catalogue; a missing number is 0, a missing text empty
pub record Item : Type 0 where
  pub vendor_price : ℕ
  pub rarity : Text
  pub tier : ℕ
  pub stack_max : ℕ
  pub is_schematic : Bool
  pub category : Text
  pub tradeable : Bool

abbrev pub price_cap : ℕ
price_cap = 100000

abbrev pub min_meaningful_vendor : ℕ
min_meaningful_vendor = 10

-- the entry of a table, or the default
abbrev pub entry : {A : Type 0} → ℕ → List A → A → A
entry n [] d = d
entry zero (x ∷ xs) d = x
entry (suc n) (x ∷ xs) d = entry n xs d

abbrev pub equipment_price : ℕ → ℕ
equipment_price tier = entry tier (500 ∷ 2000 ∷ 8000 ∷ 30000 ∷ 100000 ∷ 300000 ∷ 750000 ∷ []) 500

abbrev pub schematic_equipment_price : ℕ → ℕ
schematic_equipment_price tier =
    entry tier (500 ∷ 500 ∷ 1500 ∷ 4000 ∷ 12000 ∷ 30000 ∷ 75000 ∷ []) 500

abbrev pub material_unit_price : ℕ → ℕ
material_unit_price tier = entry tier (5 ∷ 20 ∷ 80 ∷ 200 ∷ 600 ∷ 1500 ∷ 4000 ∷ []) 5

unfoldable pub step_of : ℕ → ℕ
step_of v =
    if leb 1000000 v
    then 100000
    else if leb 100000 v
    then 10000
    else if leb 10000 v
    then 1000
    else if leb 1000 v
    then 100
    else 10

abbrev pub cap_price : ℕ → ℕ
cap_price v = min v price_cap

pub record Listing : Type 0 where
  pub template : Text
  pub qty : ℕ
  pub price : ℕ
  pub mask : ℕ
  pub depth : ℕ

module _ {F : Type 0} (fl : Floats F) (lower : ℕ → ℕ) where
  unfoldable pub round_price : ℕ → ℕ
  round_price v = round_half_up fl (fl.div (fl.of_nat v) (fl.of_nat (step_of v))) * step_of v

  -- the two tables of multipliers are the same
  abbrev pub rarity_mult : Text → F
  rarity_mult t =
      if text_eq t (codes "rare") || text_eq t (codes "unique")
      then fl.literal "5.0"
      else if text_eq t (codes "memento")
      then fl.literal "2.0"
      else fl.literal "1.0"

  abbrev pub mult : Text → F
  mult rarity = rarity_mult (map lower (strip rarity))

  abbrev pub times : ℕ → F → ℕ
  times n m = round_half_up fl (fl.mul (fl.of_nat n) m)

  unfoldable pub base_price : Item → ℕ
  base_price it =
      if leb min_meaningful_vendor it.vendor_price
      then times it.vendor_price (mult it.rarity)
      else if leb it.stack_max 1
      then times
          (if it.is_schematic then schematic_equipment_price it.tier else equipment_price it.tier)
          (mult it.rarity)
      else max (times (material_unit_price it.tier) (mult it.rarity)) 1

  abbrev pub grade_mult : ℤ → F
  grade_mult (pos n) =
      fl.literal (entry n ("1.0" ∷ "1.25" ∷ "1.55" ∷ "2.0" ∷ "2.6" ∷ "3.3" ∷ []) "1.0")
  grade_mult (negsuc n) = fl.literal "1.0"

  unfoldable pub compute_price : Item → ℤ → ℕ
  compute_price it grade = cap_price (round_price (times (base_price it) (grade_mult grade)))

  abbrev pub listing : Text → Item → Option (ℕ × ℕ) → List Listing → List Listing
  listing t it none rest = rest
  listing t it (some (mask, depth)) rest =
      record {
        template = t;
        qty = max 1 it.stack_max;
        price = compute_price it (pos 0);
        mask = mask;
        depth = depth;
      }
      ∷ rest

  -- the items in the order of their templates
  unfoldable pub all_listings : List (Text × Item) → List Listing
  all_listings [] = []
  all_listings ((t, it) ∷ items) =
      let rest = all_listings items in
      if not it.tradeable || ltb it.vendor_price min_meaningful_vendor
      then rest
      else listing t it (category_for it.is_schematic it.category) rest

abbrev pub first_of : {A : Type 0} → ℕ → List A → List A
first_of zero xs = []
first_of (suc n) [] = []
first_of (suc n) (x ∷ xs) = x ∷ first_of n xs

-- the loop stops at the limit; 0 is none
unfoldable pub build_listings :
    {F : Type 0} (fl : Floats F) (lower : ℕ → ℕ) → List (Text × Item) → ℕ → List Listing
build_listings fl lower items limit =
    let out = all_listings fl lower items in if limit == 0 then out else first_of limit out
