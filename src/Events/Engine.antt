-- ===== src/Events/Engine.antt =====
-- `_apply_outcome`, `_evaluate_event`, `_retry_pass`, `_backfill` and `run_tick`. A failed read of
-- the game raises, and the tick's writes are rolled back; what the game was asked to do stays done.
-- The counts of the log line, and the texts of announcements, are left out.
use pelican_egg_dune_awakeni.Base.{
  is_some, ℕ, ◌==◌, Bool, true, false, not, ◌&&◌, ◌||◌, List, [], ◌∷◌, Option, none, some, Text,
  text_eq, is_empty, if◌then◌else◌,
}
use pelican_egg_dune_awakeni.Base.Table.{Table, find, update}
use pelican_egg_dune_awakeni.Events.Rewards.{
  Runner, Payload, amount_of, item_of, xp_of, Spec, Cursor, cursor_of, cursor_matches_spec,
  is_empty_spec, RewardStep, deliver,
}
use pelican_egg_dune_awakeni.Events.Store.{
  ClaimKey, ClaimKey_Eq, Status, pending, granted, exhausted, Claim, Zone, Definition, Store,
  seal_granted, record_failed, parked,
}

-- the float operations of the zone test
pub record Floats (F : Type 0) : Type 0 where
  pub sub : F → F → F
  pub add : F → F → F
  pub mul : F → F → F
  pub square : F → F
  pub gt : F → F → Bool

pub record Position (F : Type 0) : Type 0 where
  pub map_name : Text
  pub x : F
  pub y : F
  pub z : F

pub record Player : Type 0 where
  pub account : ℕ
  pub fls : Text
  pub online : Bool

-- what the game was asked to do: the steps of a reward that landed, and announcements
pub data Event : Type 0 where
  landed : ClaimKey → RewardStep → Event
  announced : ClaimKey → Event

pub record World (F : Type 0) : Type 0 where
  pub store : Store F
  pub trace : List Event

-- the arguments of a reward command
pub data Command : Type 0 where
  give_currency : Text → ℕ → Command
  give : Text → Text → ℕ → Command
  give_item : Text → Text → ℕ → ℕ → Command
  award_track_xp : Text → Text → ℕ → Command

abbrev pub grant_command : Text → Bool → Payload → Command
grant_command fls online (amount_of n) = give_currency fls n
grant_command fls online (item_of it) =
    if online then give fls it.template it.qty else give_item fls it.template it.qty it.quality
grant_command fls online (xp_of t) = award_track_xp fls t.track t.amount

-- The reads of the game's database (a dict is the list of its pairs), `none` where they fail, and the runs of the reward commands,
-- which may depend on all that was done before.
pub record Game (F : Type 0) : Type 0 where
  pub online_players : Option (List Player)
  pub positions : List ℕ → Option (List (ℕ × Position F))
  pub levels : List ℕ → Option (List (ℕ × ℕ))
  pub tag_holders : List ℕ → Text → Option (List ℕ)
  pub target : ℕ → Option (Option Player)
  pub runs : List Event → Command → Bool

-- a part of a tick: the world, and whether nothing was raised
pub record Run (F : Type 0) : Type 0 where
  pub world : World F
  pub fine : Bool

abbrev pub ok : {F : Type 0} → World F → Run F
ok w = record { world = w; fine = true }

abbrev pub raised : {F : Type 0} → World F → Run F
raised w = record { world = w; fine = false }

unfoldable pub and_then : {F : Type 0} → Run F → (World F → Run F) → Run F
and_then r k = if r.fine then k r.world else r

abbrev pub lookup : {A : Type 0} → ℕ → List (ℕ × A) → Option A
lookup k [] = none
lookup k ((j, a) ∷ rest) = if j == k then some a else lookup k rest

-- the dict of the players by account: the last one of an account
abbrev pub by_account : ℕ → List Player → Option Player
by_account account [] = none
by_account account (p ∷ ps) =
    let rest = by_account account ps in
    if is_some rest then rest else if p.account == account then some p else none

abbrev pub is_over : Status → Bool
is_over pending = false
is_over granted = true
is_over exhausted = true

abbrev pub over_row : Option Claim → Bool
over_row none = false
over_row (some c) = is_over c.status

abbrev pub cursor_row : Option Claim → Option Cursor
cursor_row none = none
cursor_row (some c) = c.cursor

module _ {F : Type 0} where
  abbrev pub set_claims : Table ClaimKey Claim → World F → World F
  set_claims t w = record w { store = record (w.store) { claims = t } }

  abbrev pub key_of : Definition F → ℕ → ClaimKey
  key_of e account = record { event = e.id; version = e.version; account = account }

  unfoldable pub log_landed : ClaimKey → List RewardStep → World F → World F
  log_landed k [] w = w
  log_landed k (s ∷ ss) w = log_landed k ss (record w { trace = landed k s ∷ w.trace })

  abbrev pub announce_if : Bool → ClaimKey → World F → World F
  announce_if b k w = if b then record w { trace = announced k ∷ w.trace } else w

  -- after the delivery: the claim is sealed, or kept for the step that failed
  abbrev pub settle :
      (Spec → Text) → Spec → ClaimKey → ℕ → Bool → Option RewardStep → World F → World F
  settle hash p k now announce none w =
      announce_if announce k (set_claims (seal_granted k w.store.claims) w)
  settle hash p k now announce (some s) w =
      set_claims (record_failed k (some (cursor_of hash s p)) now w.store.claims) w

  abbrev pub make_grant_runner : Game F → List Event → Player → Runner
  make_grant_runner g trace player s =
      g.runs trace (grant_command player.fls player.online s.payload)

  unfoldable pub pay_out :
      (Spec → Text)
      → Game F
      → Spec
      → Player
      → Option Cursor
      → ClaimKey
      → ℕ
      → Bool
      → World F
      → World F
  pay_out hash g p player cursor k now announce w =
      let d = deliver p (make_grant_runner g w.trace player) cursor in
      settle hash p k now announce d.stopped (log_landed k d.landed w)

  unfoldable pub apply_outcome :
      (Spec → Text) → Game F → Definition F → Player → ℕ → Bool → Bool → World F → World F
  unfolding is_empty_spec cursor_matches_spec
  apply_outcome hash g e player now announce grant w =
      let k = key_of e player.account in
      let row = find k w.store.claims in
      let speaks = announce && not (is_empty e.announce_template) in
      if over_row row
      then w
      else if not grant || is_empty_spec e.reward
      then announce_if speaks k (set_claims (seal_granted k w.store.claims) w)
      else if not (cursor_matches_spec hash (cursor_row row) e.reward)
      then set_claims (update k parked w.store.claims) w
      else pay_out hash g e.reward player (cursor_row row) k now speaks w

module _ {F : Type 0} (fl : Floats F) where
  unfoldable pub in_zone : Zone F → Position F → Bool
  in_zone zone p =
      let dx = fl.sub p.x zone.x in
      let dy = fl.sub p.y zone.y in
      let dz = fl.sub p.z zone.z in
      (is_empty zone.map_name || text_eq p.map_name zone.map_name)
      && not (
          fl.gt (fl.add (fl.add (fl.mul dx dx) (fl.mul dy dy)) (fl.mul dz dz))
            (fl.square zone.radius))

  abbrev pub stands : Zone F → Option (Position F) → Bool
  stands zone none = false
  stands zone (some p) = in_zone zone p
