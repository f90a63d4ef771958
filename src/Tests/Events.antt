-- ===== src/Tests/Events.antt =====
-- One event that gives currency and experience to a player at level 3.
use pelican_egg_dune_awakeni.Base.{
  ℕ, ◌+◌, ◌*◌, ◌≡◌, refl, true, false, Bool, List, [], ◌∷◌, ◌++◌, Option, none, some, Text, codes,
  text_eq, ltb,
}
use pelican_egg_dune_awakeni.Base.Int.{pos}
use pelican_egg_dune_awakeni.Base.Table.{find, upsert, update, select}
use pelican_egg_dune_awakeni.Events.Engine.{
  Floats, Command, give_currency, World, Game, Player, apply_outcome, pay_out, log_landed, and_then,
}
use pelican_egg_dune_awakeni.Events.Orderly.{landed_steps}
use pelican_egg_dune_awakeni.Events.Reach.{Reach}
use pelican_egg_dune_awakeni.Events.Rewards.{
  Spec, RewardStep, Stage, currency, xp, amount_of, xp_of, cursor_of, steps, currency_steps,
  item_steps, xp_steps, steps_from, remaining, run_steps, deliver, is_empty_spec,
  cursor_matches_spec,
}
use pelican_egg_dune_awakeni.Events.RewardsLaws.{deliver-remaining}
use pelican_egg_dune_awakeni.Events.Store.{
  ClaimKey, Claim, pending, granted, Definition, level_milestone, tag_milestone, seal_granted,
  record_failed,
}
use pelican_egg_dune_awakeni.Events.Tick.{
  tick, run_tick, evaluate_all, evaluate_event, milestones, retry_pass,
}

abbrev gift : Spec
gift = record {
  currency_amount = 5;
  reward_items = [];
  track_xp = record { track = codes "combat"; amount = 100 } ∷ [];
}

abbrev money : RewardStep
money = record { stage = currency; index = 0; payload = amount_of 5 }

abbrev lesson : RewardStep
lesson = record {
  stage = xp;
  index = 0;
  payload = xp_of (record { track = codes "combat"; amount = 100 });
}

abbrev no_hash : Spec → Text
no_hash s = []

-- the run of the experience fails
abbrev is_money : Stage → Bool
is_money currency = true
is_money _ = false

deliver_run :
    deliver gift (λ s. is_money s.stage) none
    ≡ record { landed = money ∷ []; stopped = some lesson }
unfolding deliver remaining run_steps steps currency_steps item_steps xp_steps
deliver_run = refl

deliver-remaining_example :
    (money ∷ [] ++ remaining gift (some (cursor_of no_hash lesson gift)) ≡ remaining gift none)
    × (cursor_matches_spec no_hash (some (cursor_of no_hash lesson gift)) gift ≡ true)
unfolding deliver remaining run_steps steps currency_steps item_steps xp_steps
deliver-remaining_example =
    deliver-remaining no_hash gift (λ s. is_money s.stage) none [] {s = lesson} refl refl

abbrev level_event : Definition ℕ
level_event = record {
  id = 1;
  version = 1;
  enabled = true;
  kind = level_milestone 3;
  award_past = false;
  reward = gift;
  announce_template = [];
  poll_seconds = pos 60;
  jitter_seconds = pos 0;
}

abbrev tag_event : Definition ℕ
tag_event = record level_event { id = 2; kind = tag_milestone (codes "T") }

abbrev key : ClaimKey
key = record { event = 1; version = 1; account = 7 }

abbrev start : World ℕ
start = record {
  store = record { events = level_event ∷ []; claims = []; next_due = λ id. none };
  trace = [];
}

abbrev player : Player
player = record { account = 7; fls = codes "p"; online = true }

abbrev game : (Command → Bool) → Option (List ℕ) → Game ℕ
game works holders = record {
  online_players = some (player ∷ []);
  positions = λ as'. some [];
  levels = λ as'. some ((7, 4) ∷ []);
  tag_holders = λ as' tag. holders;
  target = λ a. some (some player);
  runs = λ trace c. works c;
}

abbrev floats : Floats ℕ
floats = record {
  sub = λ a b. a;
  add = λ a b. a + b;
  mul = λ a b. a * b;
  square = λ a. a * a;
  gt = λ a b. ltb b a;
}

abbrev pays_money : Command → Bool
pays_money (give_currency fls n) = true
pays_money _ = false

abbrev no_jitter : ℕ → ℕ → ℕ
no_jitter id n = 0

abbrev after_one : World ℕ
after_one = run_tick floats no_hash (game pays_money none) 1000 no_jitter true false start

abbrev after_two : World ℕ
after_two = run_tick floats no_hash (game (λ s. true) none) 90000 no_jitter true false after_one

-- the currency lands at once, and the experience a day later
money_run : landed_steps key after_one.trace ≡ money ∷ []
unfolding run_tick tick evaluate_all evaluate_event milestones retry_pass apply_outcome pay_out
    log_landed and_then seal_granted record_failed find upsert update select deliver remaining
    run_steps steps currency_steps item_steps xp_steps steps_from is_empty_spec cursor_matches_spec
    text_eq landed_steps
money_run = refl

lesson_run : landed_steps key after_two.trace ≡ money ∷ lesson ∷ []
unfolding run_tick tick evaluate_all evaluate_event milestones retry_pass apply_outcome pay_out
    log_landed and_then seal_granted record_failed find upsert update select deliver remaining
    run_steps steps currency_steps item_steps xp_steps steps_from is_empty_spec cursor_matches_spec
    text_eq landed_steps
lesson_run = refl

abbrev waiting : Claim
waiting = record {
  status = pending;
  cursor = some (cursor_of no_hash lesson gift);
  attempts = 1;
  next_attempt_at = 87400;
}

abbrev paid : Claim
paid = record waiting { status = granted; cursor = none }

-- a second event whose read fails rolls the claim of the first back, and the first pays again
abbrev two_events : World ℕ
two_events = record start { store = record (start.store) { events = level_event ∷ tag_event ∷ [] } }

abbrev after_failure : World ℕ
after_failure = run_tick floats no_hash (game (λ s. true) none) 1000 no_jitter true false two_events

twice_run :
    landed_steps key
      (run_tick floats no_hash
        (game (λ s. true) (some []))
        1010
        no_jitter
        true
        false
        after_failure).trace
    ≡ money ∷ lesson ∷ money ∷ lesson ∷ []
unfolding run_tick tick evaluate_all evaluate_event milestones retry_pass apply_outcome pay_out
    log_landed and_then seal_granted record_failed find upsert update select deliver remaining
    run_steps steps currency_steps item_steps xp_steps steps_from is_empty_spec cursor_matches_spec
    text_eq landed_steps
twice_run = refl
