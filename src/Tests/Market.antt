-- ===== src/Tests/Market.antt =====
-- A catalogue of one item, two orders of players, and floats as fractions of whole numbers.
use native.Mathlib.Nat.{le-div_iff_mul-le, div-le_of_le-mul}
use text.Mathlib.Text.{◌==◌}
use pelican_egg_dune_awakeni.Base.{
  ℕ, zero, suc, ◌+◌, ◌*◌, ◌/◌, ◌≤◌, ◌≡◌, refl, arith, Bool, true, false, ◌&&◌, List, [], ◌∷◌, none,
  some, Text, codes, strip, lstrip, rstrip, is_space, text_eq, leb, ltb, split, contains, length,
  if◌then◌else◌,
}
use pelican_egg_dune_awakeni.Base.Int.{ℤ, pos}
use pelican_egg_dune_awakeni.Base.Numeral.{int, natural, digits}
use pelican_egg_dune_awakeni.Market.Buys.{Candidate, eligible, select_from, select_buys}
use pelican_egg_dune_awakeni.Market.BuysLaws.{winners, select_buys-winners}
use pelican_egg_dune_awakeni.Market.Category.{
  code1, code2, code3, category_mask, unique_schematics_mask, category_for,
}
use pelican_egg_dune_awakeni.Market.Codes.{lookup, lookup_pair}
use pelican_egg_dune_awakeni.Market.Patch.{
  FloatTests, absent, cast, Patch, MarketConfig, clean_of, validate_config_patch, set_config, gt_ℤ,
}
use pelican_egg_dune_awakeni.Market.PatchLaws.{InRanges, set_config-InRanges}
use pelican_egg_dune_awakeni.Market.Pricing.{
  Floats, Item, step_of, round_price, base_price, compute_price, all_listings, build_listings,
  first_of,
}
use pelican_egg_dune_awakeni.Market.PricingLaws.{IsDouble, IsNear, round_price-IsNear}
use pelican_egg_dune_awakeni.Market.Tick.{
  Output, nonzero, printed, finished, asked_post, asked_buy, Env, parse_candidates, bot_orders_in,
  buy_all, run_buy_tick, run_tick, scan_loop_pass,
}
use pelican_egg_dune_awakeni.Market.TickLaws.{Asks, run_tick-Asks}

abbrev lower : ℕ → ℕ
lower c = if leb 65 c && leb c 90 then c + 32 else c

abbrev Fraction : Type 0
Fraction = ℕ × ℕ

abbrev fractions : Floats Fraction
fractions = record {
  of_nat = λ n. (n, 1);
  literal = λ t. if t == "0.5" then (1, 2) else (105, 100);
  mul = λ x y. (x.0 * y.0, x.1 * y.1);
  div = λ x y. (x.0 * y.1, x.1 * y.0);
  add = λ x y. (x.0 * y.1 + y.0 * x.1, x.1 * y.1);
  floored = λ x. x.0 / x.1;
  truncate = λ x. x.0 / x.1;
}

-- whole numbers of 2^-20
abbrev fixed : Floats ℕ
fixed = record {
  of_nat = λ n. n * 1048576;
  literal = λ t. 524288;
  mul = λ x y. x * y / 1048576;
  div = λ x y. x * 1048576 / y;
  add = λ x y. x + y;
  floored = λ x. x / 1048576;
  truncate = λ x. x / 1048576;
}

scaled : (m step : ℕ) → m * (step * 1048576) ≡ 1048576 * (m * step)
scaled m step = grind arith

fixed-IsDouble : IsDouble fixed
fixed-IsDouble = record {
  is_at_least = λ x m. leb m x;
  is_at_most = λ x m. leb x m;
  div_at_least = λ v step m a b c d e.
      let p = scaled m step in
      let le =
        (le-div_iff_mul-le {k = step * 1048576} {x = m} {y = v * 1048576 * 1048576} (omega arith)).1
          (omega arith) in
      ground arith;
  div_at_most = λ v step m a b c d e.
      let p = scaled m step in
      let q : step * 1048576 * m ≡ m * (step * 1048576) = grind arith in
      let le =
        div-le_of_le-mul (step * 1048576) {m = v * 1048576 * 1048576} {n = m} (omega arith) in
      ground arith;
  add_at_least = λ x m a h. ground arith;
  add_at_most = λ x m a h. ground arith;
  floored_at_least = λ x k a h. ground arith;
  floored_at_most = λ x m k a b h. ground arith;
}

-- a segment that is not known leaves the other bytes as they are
unknown_run : category_mask (codes "items/weapons/bogus") ≡ (16777216, 2)
unfolding category_mask code1 code2 code3 lookup lookup_pair split text_eq
unknown_run = refl

-- the helmets of light armour have the mask 0, and are skipped
helmet_run : category_for false (codes "items/garment/lightarmor/head") ≡ none
unfolding category_for category_mask code1 code2 code3 lookup lookup_pair split text_eq
helmet_run = refl

schematic_run : category_for true (codes "items/weapons/shortblades") ≡ some (16973824, 3)
unfolding category_for unique_schematics_mask code1 lookup split text_eq
schematic_run = refl

abbrev ammo : Item
ammo = record {
  vendor_price = 1234;
  rarity = codes " Rare ";
  tier = 2;
  stack_max = 100;
  is_schematic = false;
  category = codes "items/weapons/ammunition";
  tradeable = true;
}

abbrev catalog : List (Text × Item)
catalog = (codes "Ammo", ammo) ∷ []

listing_run :
    build_listings fractions lower catalog 5
    ≡ record { template = codes "Ammo"; qty = 100; price = 1400; mask = 17694720; depth = 2 } ∷ []
unfolding build_listings all_listings compute_price base_price round_price step_of category_for
    category_mask code1 code2 lookup split text_eq strip lstrip rstrip is_space
listing_run = refl

round_price-IsNear_example :
    IsNear 999 (round_price fixed lower 999)
    × (round_price fixed lower 999 ≤ round_price fixed lower 10500)
round_price-IsNear_example =
    round_price-IsNear fixed lower fixed-IsDouble 999 10500 (omega arith) (omega arith)

abbrev dice : ℕ → ℕ
dice zero = 9
dice (suc n) = 2

abbrev candidates : List Candidate
candidates =
    record { order_id = 4; template = codes "Ammo"; price = 1400; grade = 0 }
    ∷ record { order_id = 5; template = codes "Ammo"; price = 9000; grade = 0 }
    ∷ record { order_id = 6; template = codes "Ammo"; price = 900; grade = 0 }
    ∷ []

-- the dice refuse the first, the second is too dear
buys_run : select_buys fractions lower catalog (105, 100) [] dice 5 3 candidates ≡ 6 ∷ []
unfolding select_buys select_from eligible compute_price base_price round_price step_of text_eq
    strip lstrip rstrip is_space
buys_run = refl

select_buys-winners_example :
    (select_buys fractions lower catalog (105, 100) [] dice 5 3 candidates
      ≡ first_of 3 (winners fractions lower catalog (105, 100) [] dice 5 3 candidates 0))
    × (length (select_buys fractions lower catalog (105, 100) [] dice 5 3 candidates) ≤ 3)
select_buys-winners_example =
    select_buys-winners fractions lower catalog (105, 100) [] dice 5 3 candidates

abbrev float_tests : FloatTests Fraction
float_tests = record {
  is_nan = λ x. false;
  lt = λ x y. ltb (x.0 * y.1) (y.0 * x.1);
  of_nat = λ n. (n, 1);
}

abbrev unset : MarketConfig Fraction
unset = record {
  enabled = none;
  max_listings = none;
  buy_threshold = none;
  gamble_die = none;
  gamble_target = none;
  max_buys_per_tick = none;
  scan_interval_secs = none;
  disabled_items = none;
}

abbrev patch : ℤ → Patch Fraction
patch target = record {
  enabled = cast true;
  max_listings = absent;
  buy_threshold = cast (3, 2);
  gamble_die = absent;
  gamble_target = cast target;
  max_buys_per_tick = cast (pos 2);
  scan_interval_secs = absent;
  disabled_items = absent;
}

abbrev armed : MarketConfig Fraction
armed = record unset {
  enabled = some true;
  buy_threshold = some (3, 2);
  gamble_target = some (pos 12);
  max_buys_per_tick = some (pos 2);
}

-- the default die has 12 sides
above_run : set_config float_tests (patch (pos 13)) unset ≡ none
unfolding set_config validate_config_patch clean_of
above_run = refl

set_config-InRanges_example : InRanges float_tests armed × (gt_ℤ (pos 12) (pos 12) ≡ false)
unfolding set_config validate_config_patch clean_of
set_config-InRanges_example =
    set_config-InRanges float_tests (patch (pos 12)) unset {d = armed}
      (record { listings = tt; threshold = tt; die = tt; target = tt; buys = tt; interval = tt })
      refl

abbrev env : Output → Env
env status = record {
  status = status;
  candidates = λ n.
      printed
        (codes "publish=db-read" ∷ codes "4|Ammo|1400|1|2|3|0" ∷ codes " 6|Ammo|900|1|2|3| " ∷ []);
  catalog = some catalog;
  roll = λ die k. 1;
  answer = λ es e. finished true (codes "publish=db-write");
}

abbrev known : Output
known = printed (codes "bot_orders,npc_orders" ∷ codes "150,160" ∷ [])

abbrev positive : Fraction → Bool
positive x = ltb 0 x.0

tick_run :
    (run_tick (env known) fractions lower positive armed []).1
    ≡ asked_buy 6 ∷ asked_buy 4 ∷ asked_post 50 ∷ []
unfolding run_tick run_buy_tick buy_all bot_orders_in parse_candidates select_buys select_from
    eligible compute_price base_price round_price step_of split strip lstrip rstrip is_space text_eq
    contains int natural digits
tick_run = refl

-- a status that cannot be read counts as no orders, so that the whole target is posted again
blind_run :
    (run_tick (env nonzero) fractions lower positive unset []).1
    ≡ asked_buy 6 ∷ asked_buy 4 ∷ asked_post 200 ∷ []
unfolding run_tick run_buy_tick buy_all bot_orders_in parse_candidates select_buys select_from
    eligible compute_price base_price round_price step_of split strip lstrip rstrip is_space text_eq
    contains int natural digits
blind_run = refl

-- settings that are not armed only wait
pass_run : scan_loop_pass (env known) fractions lower positive unset [] ≡ (300, [])
unfolding scan_loop_pass
pass_run = refl

run_tick-Asks_example :
    Asks
      (env known)
      fractions
      lower
      positive
      armed
      150
      []
      (run_tick (env known) fractions lower positive armed []).1
unfolding bot_orders_in split strip lstrip rstrip is_space text_eq
run_tick-Asks_example = run_tick-Asks (env known) fractions lower positive armed 150 [] refl
