-- ===== src/Market/Tick.antt =====
-- `run_buy_tick`, `run_tick` and a pass of `scan-loop`, with the readers of what admin-publish.sh
-- prints. `none` is an exception.
use pelican_egg_dune_awakeni.Base.{
  ℕ, ◌+◌, ◌-◌, ◌*◌, ◌==◌, Bool, true, false, not, ◌&&◌, ◌||◌, List, [], ◌∷◌, Option, none, some,
  Text, codes, strip, split, starts_with, contains, is_empty, map, text_eq, leb, ltb, length, max,
  or_else, if◌then◌else◌,
}
use pelican_egg_dune_awakeni.Base.Int.{ℤ, pos, negsuc, pos_part}
use pelican_egg_dune_awakeni.Base.Numeral.{int}
use pelican_egg_dune_awakeni.Autoscaler.Demand.{is_number, number_of}
use pelican_egg_dune_awakeni.Market.Buys.{Candidate, select_buys}
use pelican_egg_dune_awakeni.Market.Patch.{MarketConfig}
use pelican_egg_dune_awakeni.Market.Pricing.{Floats, Item}

-- a command that prints: an exception, an exit code other than 0, or its lines
pub data Output : Type 0 where
  raised nonzero : Output
  printed : List Text → Output

-- a command that acts: an exception, or whether the exit code is 0, and the output
pub data Answer : Type 0 where
  broken : Answer
  finished : Bool → Text → Answer

pub data Event : Type 0 where
  asked_post : ℕ → Event
  asked_buy : ℕ → Event

-- What a tick meets. The answers may depend on all that was asked before.
pub record Env : Type 0 where
  pub status : Output
  pub candidates : ℕ → Output
  pub catalog : Option (List (Text × Item))
  pub roll : ℕ → ℕ → ℕ
  pub answer : List Event → Event → Answer

-- `int(x or 0)`
abbrev pub int_or_zero : Text → Option ℤ
int_or_zero t = if is_empty t then some (pos 0) else int t

-- a price or a grade below 0 chooses what 0 chooses
abbrev pub candidate_from :
    Text → Text → Option ℤ → Option ℤ → Option ℤ → Option ℤ → Option ℤ → Option Candidate
candidate_from oid t (some price) (some item) (some seller) (some stack) (some grade) =
    some (record {
      order_id = number_of 0 oid;
      template = t;
      price = pos_part price;
      grade = pos_part grade;
    })
candidate_from oid t _ _ _ _ _ = none

abbrev pub add_candidate : Option Candidate → Option (List Candidate) → Option (List Candidate)
add_candidate none rest = none
add_candidate (some c) none = none
add_candidate (some c) (some cs) = some (c ∷ cs)

-- order_id|template|price|item_id|seller|stack|grade
abbrev pub candidate_of : List Text → Option (List Candidate) → Option (List Candidate)
candidate_of (oid ∷ t ∷ price ∷ item ∷ seller ∷ stack ∷ grade ∷ more) rest =
    if is_number oid
    then add_candidate
        (candidate_from oid t (int_or_zero price) (int_or_zero item) (int_or_zero seller)
          (int_or_zero stack) (int_or_zero grade))
        rest
    else rest
candidate_of _ rest = rest

unfoldable pub parse_candidates : List Text → Option (List Candidate)
parse_candidates [] = some []
parse_candidates (l ∷ ls) =
    let line = strip l in
    let rest = parse_candidates ls in
    if is_empty line || (starts_with (codes "publish=") line || starts_with (codes "[") line)
    then rest
    else candidate_of (split 124 line) rest

abbrev pub read_buy_candidates : Output → Option (List Candidate)
read_buy_candidates raised = none
read_buy_candidates nonzero = some []
read_buy_candidates (printed ls) = parse_candidates ls

-- the last number under the key
abbrev pub value_under : Text → List Text → List Text → ℕ → ℕ
value_under key [] vs n = n
value_under key (k ∷ ks) [] n = n
value_under key (k ∷ ks) (v ∷ vs) n =
    value_under key ks vs
      (if text_eq (strip k) key && is_number (strip v) then number_of 0 (strip v) else n)

-- the lines that are not blank
unfoldable pub bot_orders_in : List Text → ℕ
bot_orders_in [] = 0
bot_orders_in (l ∷ []) = 0
bot_orders_in (l ∷ m ∷ ls) =
    let later = bot_orders_in (m ∷ ls) in
    if starts_with (codes "bot_orders") l
    then value_under (codes "bot_orders") (split 44 l) (split 44 m) 0
    else later

abbrev pub stripped_lines : List Text → List Text
stripped_lines [] = []
stripped_lines (l ∷ ls) =
    let rest = stripped_lines ls in if is_empty (strip l) then rest else strip l ∷ rest

abbrev pub read_bot_orders : Output → Option ℕ
read_bot_orders raised = none
read_bot_orders nonzero = some 0
read_bot_orders (printed ls) = some (bot_orders_in (stripped_lines ls))

abbrev pub is_write : Bool → Text → Bool
is_write zero out = zero && contains (codes "publish=db-write") out

pub record Bought : Type 0 where
  pub bought : ℕ
  pub errors : ℕ

abbrev pub count_buy : Bool → Bought → Bought
count_buy true b = record b { bought = b.bought + 1 }
count_buy false b = record b { errors = b.errors + 1 }

pub data BuyReport : Type 0 where
  threshold_off gamble_off : BuyReport
  passed : Bought → ℕ → ℕ → BuyReport

abbrev pub natural_or : ℕ → Option ℤ → ℕ
natural_or default none = default
natural_or default (some n) = pos_part n

module _ (env : Env) where
  abbrev pub after_buy :
      Answer
      → Bought
      → (Bought → Option Bought × List Event)
      → List Event
      → Option Bought × List Event
  after_buy broken b rest es = (none, es)
  after_buy (finished zero out) b rest es = rest (count_buy (is_write zero out) b)

  unfoldable pub buy_all : List ℕ → Bought → List Event → Option Bought × List Event
  buy_all [] b es = (some b, es)
  buy_all (oid ∷ oids) b es =
      let asked = asked_buy oid ∷ es in
      after_buy (env.answer es (asked_buy oid)) b (λ c. buy_all oids c asked) asked

  abbrev pub pass_report : ℕ → ℕ → Option Bought → Option BuyReport
  pass_report considered chosen none = none
  pass_report considered chosen (some b) = some (passed b considered chosen)

  -- `positive` says that a float is not `<= 0`
  module _ {F : Type 0} (fl : Floats F) (lower : ℕ → ℕ) (positive : F → Bool) where
    abbrev pub buy_chosen :
        F
        → List Text
        → ℕ
        → ℕ
        → ℕ
        → Option (List (Text × Item))
        → Option (List Candidate)
        → List Event
        → Option BuyReport × List Event
    buy_chosen threshold disabled die target max_buys none cs es = (none, es)
    buy_chosen threshold disabled die target max_buys (some items) none es = (none, es)
    buy_chosen threshold disabled die target max_buys (some items) (some cs) es =
        let chosen =
          select_buys fl lower items threshold disabled (env.roll die) target max_buys cs in
        let r = buy_all chosen (record { bought = 0; errors = 0 }) es in
        (pass_report (length cs) (length chosen) r.0, r.1)

    -- a die below 1 is thrown as one of a single side
    abbrev pub die_of : Option ℤ → ℕ
    die_of none = 12
    die_of (some (pos n)) = if n == 0 then 12 else n
    die_of (some (negsuc n)) = 1

    unfoldable pub run_buy_tick : MarketConfig F → List Event → Option BuyReport × List Event
    run_buy_tick cfg es =
        let threshold = or_else cfg.buy_threshold (fl.literal "1.05") in
        let target = natural_or 5 cfg.gamble_target in
        let max_buys = natural_or 5 cfg.max_buys_per_tick in
        if not (positive threshold)
        then (some threshold_off, es)
        else if leb target 0 || leb max_buys 0
        then (some gamble_off, es)
        else buy_chosen threshold (map (map lower) (or_else cfg.disabled_items []))
            (die_of cfg.gamble_die) target max_buys env.catalog
            (read_buy_candidates (env.candidates (max_buys * 10))) es

    -- the number of orders posted, if that was tried
    abbrev pub posted : Answer → ℕ → Option ℕ
    posted broken deficit = none
    posted (finished zero out) deficit = some (if is_write zero out then deficit else 0)

    abbrev pub top_up : ℕ → Option ℕ → List Event → Option (Option ℕ) × List Event
    top_up target none es = (none, es)
    top_up target (some bot_orders) es =
        let deficit = target - bot_orders in
        if ltb 0 deficit
        then (
          some_of (posted (env.answer es (asked_post deficit)) deficit),
          asked_post deficit ∷ es,
        )
        else (some (some 0), es)
      where
        some_of : Option ℕ → Option (Option ℕ)
        some_of none = none
        some_of (some n) = some (some n)

    abbrev pub post_step : ℕ → List Event → Option (Option ℕ) × List Event
    post_step target es =
        if ltb 0 target then top_up target (read_bot_orders env.status) es else (some none, es)

    abbrev pub tick_report : Option ℕ → Option BuyReport → Option (Option ℕ × BuyReport)
    tick_report n none = none
    tick_report n (some b) = some (n, b)

    abbrev pub buy_step :
        MarketConfig F → Option (Option ℕ) → List Event → Option (Option ℕ × BuyReport) × List Event
    buy_step cfg none es = (none, es)
    buy_step cfg (some n) es = let r = run_buy_tick cfg es in (tick_report n r.0, r.1)

    unfoldable pub run_tick :
        MarketConfig F → List Event → Option (Option ℕ × BuyReport) × List Event
    run_tick cfg es = let r = post_step (natural_or 200 cfg.max_listings) es in buy_step cfg r.0 r.1

    abbrev pub sleep_secs : Option ℤ → ℕ
    sleep_secs none = 300
    sleep_secs (some (pos n)) = if n == 0 then 300 else max n 30
    sleep_secs (some (negsuc n)) = 30

    abbrev pub pass_secs : ℕ → Option (Option ℕ × BuyReport) → ℕ
    pass_secs interval none = 60
    pass_secs interval (some r) = interval

    -- the seconds to sleep, and the events
    unfoldable pub scan_loop_pass : MarketConfig F → List Event → ℕ × List Event
    scan_loop_pass cfg es =
        let r = run_tick cfg es in
        if or_else cfg.enabled false
        then (pass_secs (sleep_secs cfg.scan_interval_secs) r.0, r.1)
        else (sleep_secs cfg.scan_interval_secs, es)
