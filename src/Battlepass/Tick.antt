-- ===== src/Battlepass/Tick.antt =====
-- `run_tick` and `grant_account`. What the game's database answers is a parameter; `none` is the
-- RuntimeError of a failed read, upon which the transaction is rolled back. The counts that are
-- logged are left out.
use pelican_egg_dune_awakeni.Base.{
  ℕ, ◌+◌, ◌==◌, Bool, true, false, not, ◌&&◌, ◌||◌, List, [], ◌∷◌, Option, none, some, Text,
  text_eq, leb, ltb, is_empty, is_some, if◌then◌else◌,
}
use pelican_egg_dune_awakeni.Base.Table.{find, select}
use pelican_egg_dune_awakeni.Battlepass.Store.{
  Key, Key_Eq, key_of, Signal, level, journey_node, player_tag, Tier, baseline, earned, Grant,
  Store, is_earned, is_pending, record_claim, mark_seen, enqueue_grant,
}
use pelican_egg_dune_awakeni.Battlepass.Deliver.{
  World, Award, Outcome, paid, retry_later, failed, skipped, max_attempts, deliver_grant,
}

pub record Config : Type 0 where
  pub enabled : Bool
  pub award_past : Bool
  pub auto_grant : Bool
  pub poll_seconds : ℕ

pub record Player : Type 0 where
  pub account : ℕ
  pub fls : Text
  pub level : ℕ

pub record Game : Type 0 where
  pub tracked_players : Option (List Player)
  pub journey_nodes : ℕ → Option (List Text)
  pub tags : ℕ → Option (List Text)

abbrev pub mem : Text → List Text → Bool
mem t [] = false
mem t (x ∷ xs) = text_eq t x || mem t xs

unfoldable pub tier_satisfied : Tier → Player → List Text → List Text → Bool
tier_satisfied t p journey tags = elim t.signal [
  | level ↦ leb t.threshold p.level
  | journey_node ↦ mem t.signal_key journey
  | player_tag ↦ mem t.signal_key tags
]

pub data TierAction : Type 0 where
  mark to_baseline earn : TierAction

unfoldable pub tier_action : Bool → Bool → Bool → TierAction
tier_action satisfied seen award_past =
    if not satisfied then mark else if award_past || seen then earn else to_baseline

unfoldable pub act : TierAction → Key → Store → Store
unfolding mark_seen record_claim
act mark k s = mark_seen k s
act to_baseline k s = record_claim k baseline s
act earn k s = record_claim k earned s

unfoldable pub open_tiers : Store → ℕ → List Tier → List Tier
open_tiers s account [] = []
open_tiers s account (t ∷ ts) =
    let rest = open_tiers s account ts in
    if t.enabled && not (is_some (find (key_of t account) s.claims)) then t ∷ rest else rest

-- `seen` is what was on record when the player's turn came
unfoldable pub judge : Config → Store → Player → List Text → List Text → List Tier → Store → Store
judge c before p journey tags [] s = s
judge c before p journey tags (t ∷ ts) s =
    let k = key_of t p.account in
    let seen = is_some (find k before.seen) in
    judge c before p journey tags ts
      (act (tier_action (tier_satisfied t p journey tags) seen c.award_past) k s)

abbrev pub is_signal : Signal → Signal → Bool
is_signal level level = true
is_signal journey_node journey_node = true
is_signal player_tag player_tag = true
is_signal _ _ = false

abbrev pub any_signal : Signal → List Tier → Bool
any_signal g [] = false
any_signal g (t ∷ ts) = is_signal g t.signal || any_signal g ts

-- read only if an open tier needs it
abbrev pub fetch : Bool → Option (List Text) → Option (List Text)
fetch needed answer = if needed then answer else some []

abbrev pub judge_read :
    Config → Player → List Tier → Store → Option (List Text) → Option (List Text) → Option Store
judge_read c p ts s (some journey) (some tags) = some (judge c s p journey tags ts s)
judge_read c p ts s _ _ = none

unfoldable pub scan_player : Config → Game → Player → Store → Option Store
scan_player c g p s =
    let ts = open_tiers s p.account s.tiers in
    judge_read c p ts s (fetch (any_signal journey_node ts) (g.journey_nodes p.account))
      (fetch (any_signal player_tag ts) (g.tags p.account))

abbrev pub then_scan : (Store → Option Store) → Option Store → Option Store
then_scan k none = none
then_scan k (some s) = k s

unfoldable pub scan : Config → Game → List Player → Store → Option Store
scan c g [] s = some s
scan c g (p ∷ ps) s = then_scan (scan c g ps) (scan_player c g p s)

unfoldable pub enqueue_all : List Key → Store → Store
unfolding enqueue_grant
enqueue_all [] s = s
enqueue_all (k ∷ ks) s = enqueue_all ks (enqueue_grant k s)

abbrev pub is_due : ℕ → Grant → Bool
is_due now g = is_pending g.status && ltb g.attempts max_attempts && leb g.next_attempt_at now

-- the last one wins, as in the dict by key
abbrev pub tier_by_key : Text → List Tier → Option Tier
tier_by_key key [] = none
tier_by_key key (t ∷ ts) = elim (tier_by_key key ts) [
  | none ↦ if text_eq t.tier_key key then some t else none
  | some t' ↦ some t'
]

abbrev pub by_account : ℕ → List Player → Option Player
by_account account [] = none
by_account account (p ∷ ps) = elim (by_account account ps) [
  | none ↦ if p.account == account then some p else none
  | some p' ↦ some p'
]

abbrev pub enabled_tiers : List Tier → List Tier
enabled_tiers [] = []
enabled_tiers (t ∷ ts) = let rest = enabled_tiers ts in if t.enabled then t ∷ rest else rest

abbrev pub deliver_to : Award → ℕ → ℕ → Option Tier → Option Player → World → World
deliver_to award now account (some t) (some p) w =
    if is_empty p.fls then w else (deliver_grant award t account p.fls now w).0
deliver_to award now account _ _ w = w

unfoldable pub deliver_due : Award → ℕ → List Tier → List Player → List Key → World → World
deliver_due award now ts ps [] w = w
deliver_due award now ts ps (k ∷ ks) w =
    deliver_due award now ts ps ks
      (deliver_to award now k.account (tier_by_key k.tier_key ts) (by_account k.account ps) w)

unfoldable pub grant_pass : Award → ℕ → List Player → World → World
unfolding enqueue_all
grant_pass award now ps w =
    let s = enqueue_all (select (λ k c. is_earned c) w.store.claims) w.store in
    deliver_due award now (enabled_tiers s.tiers) ps (select (λ k g. is_due now g) s.ledger)
      (record w { store = s })

abbrev pub scanned : Award → Config → ℕ → List Player → World → Option Store → World
scanned award c now ps w none = w
scanned award c now ps w (some s) =
    if c.auto_grant
    then grant_pass award now ps (record w { store = s })
    else record w { store = s }

abbrev pub pass : Award → Config → Game → ℕ → Option (List Player) → World → World
pass award c g now none w = w
pass award c g now (some ps) w = scanned award c now ps w (scan c g ps w.store)

abbrev pub not_yet : ℕ → Option ℕ → Bool
not_yet now none = false
not_yet now (some due) = ltb now due

unfoldable pub run_tick : Award → Game → Config → ℕ → Bool → World → World
run_tick award g c now force w =
    if not c.enabled
    then w
    else if not force && not_yet now w.store.next_due
    then w
    else let w' = record w {
      store = record (w.store) { next_due = some (now + c.poll_seconds) };
    } in
      if is_empty (enabled_tiers w.store.tiers) then w' else pass award c g now g.tracked_players w'

pub record Granted : Type 0 where
  pub granted : ℕ
  pub failed : ℕ
  pub online : Bool

abbrev pub nothing : Granted
nothing = record { granted = 0; failed = 0; online = false }

abbrev pub counted : Outcome → Granted → Granted
counted paid r = record r { granted = r.granted + 1 }
counted failed r = record r { failed = r.failed + 1 }
counted retry_later r = record r { failed = r.failed + 1; online = true }
counted skipped r = r

abbrev pub is_retry : Outcome → Bool
is_retry retry_later = true
is_retry _ = false

abbrev pub grant_tier : Award → Option Tier → ℕ → Text → ℕ → World → World × Outcome
grant_tier award none account fls now w = (w, skipped)
grant_tier award (some t) account fls now w =
    deliver_grant award t account fls now
      (record w { store = enqueue_grant (key_of t account) w.store })

-- the loop over the earned tiers, with its `break`
unfoldable pub grant_earned : Award → ℕ → Text → ℕ → List Key → World → Granted → World × Granted
grant_earned award account fls now [] w r = (w, r)
grant_earned award account fls now (k ∷ ks) w r =
    let (w', o) = grant_tier award (tier_by_key k.tier_key w.store.tiers) account fls now w in
    let rest = grant_earned award account fls now ks w' (counted o r) in
    if is_retry o then (w', counted o r) else rest

abbrev pub count : List Key → ℕ
count [] = 0
count (k ∷ ks) = count ks + 1

abbrev pub granted_to : Award → Option Text → ℕ → ℕ → List Key → World → Option (World × Granted)
granted_to award none account now ks w = none
granted_to award (some fls) account now ks w =
    let run = grant_earned award account fls now ks w nothing in
    if is_empty fls then some (w, record nothing { failed = count ks }) else some run

-- `target` is the player's `fls`, empty if there is no such player, and `none` on a failed read
unfoldable pub grant_account : Award → Option Text → ℕ → ℕ → World → Option (World × Granted)
grant_account award target account now w =
    let ks = select (λ k c. k.account == account && is_earned c) w.store.claims in
    if is_empty ks then some (w, nothing) else granted_to award target account now ks w
