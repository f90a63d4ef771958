-- ===== src/Events/Store.antt =====
-- The tables of the event engine. Creation and update times and error texts, which no decision
-- reads, are left out; a reward and a configuration stand for their JSON texts.
use pelican_egg_dune_awakeni.Base.{
  ℕ, ◌+◌, ◌==◌, ◌≡◌, ◌↔◌, Bool, true, not, ◌&&◌, List, Option, none, Text, leb, if◌then◌else◌,
  arith,
}
use pelican_egg_dune_awakeni.Base.Int.{ℤ}
use pelican_egg_dune_awakeni.Base.Table.{Eq, Table, upsert, keep}
use pelican_egg_dune_awakeni.Events.Rewards.{Spec, Cursor}

-- the primary key of claims
pub record ClaimKey : Type 0 where
  pub event : ℕ
  pub version : ℕ
  pub account : ℕ

abbrev pub same_claim : ClaimKey → ClaimKey → Bool
same_claim a b = a.event == b.event && a.version == b.version && a.account == b.account

pub same_claim_iff : (a b : ClaimKey) → (same_claim a b ≡ true) ↔ (a ≡ b)
same_claim_iff a b = ground arith

instance abbrev pub ClaimKey_Eq : Eq ClaimKey
ClaimKey_Eq = record { same = same_claim; same_iff = same_claim_iff }

pub data Status : Type 0 where
  pending granted exhausted : Status

pub record Claim : Type 0 where
  pub status : Status
  pub cursor : Option Cursor
  pub attempts : ℕ
  pub next_attempt_at : ℕ

-- the configuration of a zone race; the reads of the game say who stands in the zone
pub record Zone (F : Type 0) : Type 0 where
  pub participants : List ℕ
  pub map_name : Text
  pub x : F
  pub y : F
  pub z : F
  pub radius : F

pub data Kind (F : Type 0) : Type 0 where
  zone_race : Zone F → Kind F
  level_milestone : ℕ → Kind F
  tag_milestone : Text → Kind F

pub record Definition (F : Type 0) : Type 0 where
  pub id : ℕ
  pub version : ℕ
  pub enabled : Bool
  pub kind : Kind F
  pub award_past : Bool
  pub reward : Spec
  pub announce_template : Text
  pub poll_seconds : ℤ
  pub jitter_seconds : ℤ

pub record Store (F : Type 0) : Type 0 where
  pub events : List (Definition F)
  pub claims : Table ClaimKey Claim
  -- the keys `next_due:<id>` of the engine state
  pub next_due : ℕ → Option ℕ

abbrev pub max_attempts : ℕ
max_attempts = 3

abbrev pub retry_backoff_secs : ℕ
retry_backoff_secs = 86400

abbrev pub new_granted : Claim
new_granted = record { status = granted; cursor = none; attempts = 0; next_attempt_at = 0 }

abbrev pub now_granted : Claim → Claim
now_granted c = record c { status = granted; cursor = none }

unfoldable pub seal_granted : ClaimKey → Table ClaimKey Claim → Table ClaimKey Claim
seal_granted k = upsert k new_granted now_granted

abbrev pub first_failure : Option Cursor → ℕ → Claim
first_failure cursor now = record {
  status = pending;
  cursor = cursor;
  attempts = 1;
  next_attempt_at = now + retry_backoff_secs;
}

abbrev pub next_failure : Option Cursor → ℕ → Claim → Claim
next_failure cursor now c = record {
  status = if leb max_attempts (c.attempts + 1) then exhausted else pending;
  cursor = cursor;
  attempts = c.attempts + 1;
  next_attempt_at = now + retry_backoff_secs;
}

unfoldable pub record_failed :
    ClaimKey → Option Cursor → ℕ → Table ClaimKey Claim → Table ClaimKey Claim
record_failed k cursor now = upsert k (first_failure cursor now) (next_failure cursor now)

-- the claim of a reward that was edited while its delivery was pending
abbrev pub parked : Claim → Claim
parked c = record c { status = exhausted; attempts = max_attempts }

abbrev pub of_event : ℕ → ClaimKey → Bool
of_event id k = k.event == id

unfoldable pub reset_claims : ℕ → Table ClaimKey Claim → Table ClaimKey Claim
reset_claims id = keep (λ k c. not (of_event id k))
