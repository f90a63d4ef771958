-- ===== src/Tests/Battlepass.antt =====
-- One level tier of 10 intel and one player who has it.
use pelican_egg_dune_awakeni.Base.{ℕ, ◌≡◌, refl, true, false, [], ◌∷◌, none, some, codes, text_eq}
use pelican_egg_dune_awakeni.Base.Int.{pos}
use pelican_egg_dune_awakeni.Base.Table.{find, upsert, update, select, keep}
use pelican_egg_dune_awakeni.Battlepass.Store.{
  Key, Key_Eq, Tier, level, purge, record_claim, mark_seen, enqueue_grant, reset_claims,
  drop_unsealed, baseline,
}
use pelican_egg_dune_awakeni.Battlepass.Deliver.{
  World, Award, set_grant, grant_claim, give_items, settle, after_award, award_intel, pay,
  deliver_grant,
}
use pelican_egg_dune_awakeni.Battlepass.Tick.{
  Config, Game, tier_satisfied, tier_action, act, open_tiers, judge, scan_player, scan, enqueue_all,
  deliver_due, grant_pass, run_tick,
}
use pelican_egg_dune_awakeni.Battlepass.Paid.{times_paid}
use pelican_egg_dune_awakeni.Battlepass.Watched.{IsWatched}
use pelican_egg_dune_awakeni.Battlepass.Reach.{Reach, tick, reset, here, next, Reach-IsWatched}

abbrev five : Tier
five = record {
  tier_key = codes "level:5";
  signal = level;
  signal_key = [];
  threshold = 5;
  intel = 10;
  reward_items = [];
  enabled = true;
}

abbrev start : World
start = record {
  store = record { tiers = five ∷ []; claims = []; seen = []; ledger = []; next_due = none };
  trace = [];
}

abbrev game_at : ℕ → Game
game_at n = record {
  tracked_players = some (record { account = 7; fls = codes "p"; level = n } ∷ []);
  journey_nodes = λ a. none;
  tags = λ a. none;
}

abbrev config : Config
config = record { enabled = true; award_past = false; auto_grant = true; poll_seconds = 60 }

abbrev accepts : Award
accepts trace fls n = pos 0

abbrev after_one : World
after_one = run_tick accepts (game_at 4) config 1000 false start

abbrev after_two : World
after_two = run_tick accepts (game_at 5) config 2000 false after_one

abbrev after_three : World
after_three =
    run_tick accepts (game_at 5) config 3000 false
      (record after_two { store = reset_claims purge 0 after_two.store })

abbrev key : Key
key = record { tier_key = codes "level:5"; account = 7 }

-- watched at level 4, earned and paid at level 5; after a purge the tier is a baseline
claim_run : find key after_three.store.claims ≡ some baseline
unfolding run_tick grant_pass deliver_due enqueue_all scan scan_player judge open_tiers act
    tier_action tier_satisfied deliver_grant pay award_intel after_award settle give_items
    grant_claim set_grant enqueue_grant mark_seen record_claim find upsert update select
    reset_claims drop_unsealed keep text_eq
claim_run = refl

paid_run : times_paid key after_three.trace ≡ 1
unfolding run_tick grant_pass deliver_due enqueue_all scan scan_player judge open_tiers act
    tier_action tier_satisfied deliver_grant pay award_intel after_award settle give_items
    grant_claim set_grant enqueue_grant mark_seen record_claim find upsert update select
    reset_claims drop_unsealed keep times_paid text_eq
paid_run = refl

runs : Reach false start after_three
runs =
    next
      (next
        (next (next here (tick accepts (game_at 4) config 1000 false refl))
          (tick accepts (game_at 5) config 2000 false refl))
        (reset purge 0))
      (tick accepts (game_at 5) config 3000 false refl)

Reach-IsWatched_example : IsWatched key after_three.store
unfolding find
Reach-IsWatched_example = Reach-IsWatched key refl runs
