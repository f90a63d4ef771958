-- ===== src/Market/TickLaws.antt =====
-- What a tick may ask for.
use pelican_egg_dune_awakeni.Base.{
  ℕ, suc, ◌+◌, ◌-◌, ◌*◌, ◌≤◌, ◌≡◌, ◌∙◌, refl, Bool, true, false, Bool-cases, inl, inr, List, [],
  ◌∷◌, Option, none, some, Text, ltb, length, if◌then◌else◌, arith, or_else, map, not, leb, ◌||◌,
}
use pelican_egg_dune_awakeni.Market.Buys.{Candidate, select_buys}
use pelican_egg_dune_awakeni.Market.BuysLaws.{select_buys-winners}
use pelican_egg_dune_awakeni.Market.Patch.{MarketConfig}
use pelican_egg_dune_awakeni.Market.Pricing.{Floats, Item}
use pelican_egg_dune_awakeni.Market.Tick.{
  Event, asked_post, asked_buy, Env, Answer, broken, finished, Bought, after_buy, buy_all,
  buy_chosen, run_buy_tick, natural_or, read_bot_orders, read_buy_candidates, top_up, post_step,
  buy_step, run_tick, die_of, threshold_off, gamble_off,
}

abbrev pub purchases : List Event → ℕ
purchases [] = 0
purchases (asked_buy oid ∷ es) = purchases es + 1
purchases (asked_post n ∷ es) = purchases es

-- the orders that are to be posted
abbrev pub postings : List Event → ℕ
postings [] = 0
postings (asked_buy oid ∷ es) = postings es
postings (asked_post n ∷ es) = postings es + n

-- at most `n` purchases beyond `es`, and no posting
pub record Buys (n : ℕ) (es fs : List Event) : Type 0 where
  pub bought : purchases fs ≤ purchases es + n
  pub posted : postings fs ≡ postings es

Buys-same : (n : ℕ) (es : List Event) → Buys n es es
Buys-same n es = record { bought = omega arith; posted = refl }

purchases-Buys :
    (n oid : ℕ) (es fs : List Event) → Buys n (asked_buy oid ∷ es) fs → Buys (suc n) es fs
purchases-Buys n oid es fs h = record { bought = omega (arith, h.bought); posted = h.posted }

module _ (env : Env) where
  after_buy-Buys :
      (n oid : ℕ) (a : Answer) (b : Bought) (rest : Bought → Option Bought × List Event)
      (es : List Event)
      → ((c : Bought) → Buys n (asked_buy oid ∷ es) (rest c).1)
      → Buys (suc n) es (after_buy env a b rest (asked_buy oid ∷ es)).1
  after_buy-Buys n oid broken b rest es h =
      purchases-Buys n oid es _ (Buys-same n (asked_buy oid ∷ es))
  after_buy-Buys n oid (finished ok out) b rest es h = purchases-Buys n oid es _ (h _)

  buy_all-Buys :
      (oids : List ℕ) (b : Bought) (es : List Event)
      → Buys (length oids) es (buy_all env oids b es).1
  unfolding buy_all
  buy_all-Buys [] b es = Buys-same 0 es
  buy_all-Buys (oid ∷ oids) b es =
      after_buy-Buys (length oids) oid (env.answer es (asked_buy oid)) b
        (λ c. buy_all env oids c (asked_buy oid ∷ es)) es
        (λ c. buy_all-Buys oids c (asked_buy oid ∷ es))

Buys-weaken : (m n : ℕ) (es fs : List Event) → m ≤ n → Buys m es fs → Buys n es fs
Buys-weaken m n es fs le h = record { bought = omega (arith, h.bought); posted = h.posted }

if-Buys :
    {A : Type 0} (b : Bool) (n : ℕ) (es : List Event) (x y : A × List Event)
    → Buys n es x.1
    → Buys n es y.1
    → Buys n es (if b then x else y).1
if-Buys true n es x y h k = h
if-Buys false n es x y h k = k

module _ (env : Env) {F : Type 0} (fl : Floats F) (lower : ℕ → ℕ) (positive : F → Bool) where
  buy_chosen-Buys :
      (threshold : F) (disabled : List Text) (die target max_buys : ℕ)
      (items : Option (List (Text × Item))) (cs : Option (List Candidate)) (es : List Event)
      → Buys max_buys es
          (buy_chosen env fl lower positive threshold disabled die target max_buys items cs es).1
  buy_chosen-Buys threshold disabled die target max_buys none cs es = Buys-same max_buys es
  buy_chosen-Buys threshold disabled die target max_buys (some items) none es =
      Buys-same max_buys es
  buy_chosen-Buys threshold disabled die target max_buys (some items) (some cs) es =
      let chosen =
        select_buys fl lower items threshold disabled (env.roll die) target max_buys cs in
      Buys-weaken (length chosen) max_buys es _
        (select_buys-winners fl lower items threshold disabled (env.roll die) target max_buys cs).1
        (buy_all-Buys env chosen _ es)

  run_buy_tick-Buys :
      (cfg : MarketConfig F) (es : List Event)
      → Buys (natural_or 5 cfg.max_buys_per_tick) es (run_buy_tick env fl lower positive cfg es).1
  unfolding run_buy_tick
  run_buy_tick-Buys cfg es =
      let n = natural_or 5 cfg.max_buys_per_tick in
      let threshold = or_else cfg.buy_threshold (fl.literal "1.05") in
      let target = natural_or 5 cfg.gamble_target in
      let die = die_of env fl lower positive cfg.gamble_die in
      let disabled = map (map lower) (or_else cfg.disabled_items []) in
      let cs = read_buy_candidates (env.candidates (n * 10)) in
      let pass =
        buy_chosen env fl lower positive threshold disabled die target n env.catalog cs es in
      let off = leb target 0 || leb n 0 in
      if-Buys (not (positive threshold)) n es (some threshold_off, es)
        (if off then (some gamble_off, es) else pass) (Buys-same n es)
        (if-Buys off n es (some gamble_off, es) pass (Buys-same n es)
          (buy_chosen-Buys threshold disabled die target n env.catalog cs es))

  -- what a tick asks for, with the number of orders that the bot has
  pub record Asks (cfg : MarketConfig F) (orders : ℕ) (es fs : List Event) : Type 0 where
    pub purchases_le : purchases fs ≤ purchases es + natural_or 5 cfg.max_buys_per_tick
    pub postings_eq : postings fs ≡ postings es + (natural_or 200 cfg.max_listings - orders)

  buy_step-Buys :
      (cfg : MarketConfig F) (o : Option (Option ℕ)) (es : List Event)
      → Buys (natural_or 5 cfg.max_buys_per_tick) es (buy_step env fl lower positive cfg o es).1
  buy_step-Buys cfg none es = Buys-same _ es
  buy_step-Buys cfg (some n) es = run_buy_tick-Buys cfg es

  top_up-posted :
      (target orders : ℕ) (es : List Event)
      → (purchases (top_up env fl lower positive target (some orders) es).1 ≡ purchases es)
        × (postings (top_up env fl lower positive target (some orders) es).1
            ≡ postings es + (target - orders))
  top_up-posted target orders es = elim (Bool-cases (ltb 0 (target - orders))) [
    | inl d ↦ rw d (refl, refl)
    | inr d ↦ rw d (refl, ground arith)
  ]

  post_step-posted :
      (target orders : ℕ) (es : List Event)
      → read_bot_orders env.status ≡ some orders
      → (purchases (post_step env fl lower positive target es).1 ≡ purchases es)
        × (postings (post_step env fl lower positive target es).1 ≡ postings es + (target - orders))
  post_step-posted target orders es h = elim (Bool-cases (ltb 0 target)) [
    | inl t ↦ rw (t, h) (top_up-posted target orders es)
    | inr t ↦ rw t (refl, ground arith)
  ]

  -- If the status of the market can be read or fails with an exit code, a tick asks for at most
  -- as many purchases as the configuration allows, and posts exactly what the number of orders
  -- that it read is short of the target, also if a run raises an exception.
  pub run_tick-Asks :
      (cfg : MarketConfig F) (orders : ℕ) (es : List Event)
      → read_bot_orders env.status ≡ some orders
      → Asks cfg orders es (run_tick env fl lower positive cfg es).1
  unfolding run_tick
  run_tick-Asks cfg orders es h =
      let r = post_step env fl lower positive (natural_or 200 cfg.max_listings) es in
      let (same, more) = post_step-posted (natural_or 200 cfg.max_listings) orders es h in
      let step = buy_step-Buys cfg r.0 r.1 in
      record { purchases_le = omega (arith, same, step.bought); postings_eq = step.posted ∙ more }
