-- ===== src/Battlepass/Deliver.antt =====
-- `_deliver_grant`: one row of the ledger, and what it asks of the game.
use pelican_egg_dune_awakeni.Base.{
  ℕ, ◌+◌, ◌==◌, Bool, false, not, List, [], ◌∷◌, Option, none, some, Text, leb, ltb, if◌then◌else◌,
}
use pelican_egg_dune_awakeni.Base.Int.{ℤ, pos, negsuc}
use pelican_egg_dune_awakeni.Base.Table.{find, update}
use pelican_egg_dune_awakeni.Battlepass.Store.{
  Key, Key_Eq, key_of, Item, Tier, ClaimStatus, granted, Grant, pending, sealed, exhausted, Store,
  is_earned, is_sealed,
}

-- Calls of admin-publish.sh. `award-intel` gets the player and the amount; the key for which it is
-- called, and its exit code, are kept here beside the call.
pub data Event : Type 0 where
  awarded : Key → Text → ℕ → ℤ → Event
  gave : Text → Item → Event

pub record World : Type 0 where
  pub store : Store
  pub trace : List Event

-- the exit code of `award-intel`, which may depend on all that was done before
abbrev pub Award : Type 0
Award = List Event → Text → ℕ → ℤ

pub data Outcome : Type 0 where
  paid retry_later failed skipped : Outcome

abbrev pub max_attempts : ℕ
max_attempts = 3

abbrev pub retry_backoff_secs : ℕ
retry_backoff_secs = 86400

abbrev pub online_retry_secs : ℕ
online_retry_secs = 300

abbrev pub exit_is : ℕ → ℤ → Bool
exit_is n (pos m) = m == n
exit_is n (negsuc m) = false

abbrev pub seal : Grant → Grant
seal g = record g { status = sealed }

abbrev pub postpone : ℕ → Grant → Grant
postpone now g = record g { next_attempt_at = now + online_retry_secs }

abbrev pub count_failure : ℕ → Grant → Grant
count_failure now g = record {
  status = if leb max_attempts (g.attempts + 1) then exhausted else pending;
  attempts = g.attempts + 1;
  next_attempt_at = now + retry_backoff_secs;
}

unfoldable pub set_grant : Key → (Grant → Grant) → World → World
set_grant k f w = record w { store = record (w.store) { ledger = update k f w.store.ledger } }

unfoldable pub grant_claim : Key → World → World
grant_claim k w = record w {
  store = record (w.store) { claims = update k (λ c. granted) w.store.claims };
}

unfoldable pub give_items : Text → List Item → World → World
give_items fls [] w = w
give_items fls (i ∷ is) w = give_items fls is (record w { trace = gave fls i ∷ w.trace })

-- claim granted, ledger sealed, items given and not retried
unfoldable pub settle : Tier → Key → Text → World → World
settle tier k fls w = give_items fls tier.reward_items (set_grant k seal (grant_claim k w))

unfoldable pub after_award : ℤ → Tier → Key → Text → ℕ → World → World × Outcome
after_award rc tier k fls now w =
    if exit_is 4 rc
    then (set_grant k (postpone now) w, retry_later)
    else if not (exit_is 0 rc)
    then (set_grant k (count_failure now) w, failed)
    else (settle tier k fls w, paid)

unfoldable pub award_intel : Award → Tier → Key → Text → ℕ → World → World × Outcome
award_intel award tier k fls now w =
    let rc = award w.trace fls tier.intel in
    after_award rc tier k fls now (record w { trace = awarded k fls tier.intel rc ∷ w.trace })

unfoldable pub pay : Award → Tier → Key → Text → ℕ → World → World × Outcome
pay award tier k fls now w =
    if ltb 0 tier.intel then award_intel award tier k fls now w else (settle tier k fls w, paid)

abbrev pub sealed_row : Option Grant → Bool
sealed_row none = false
sealed_row (some g) = is_sealed g.status

abbrev pub earned_row : Option ClaimStatus → Bool
earned_row none = false
earned_row (some c) = is_earned c

unfoldable pub deliver_grant : Award → Tier → ℕ → Text → ℕ → World → World × Outcome
deliver_grant award tier account fls now w =
    let k = key_of tier account in
    if sealed_row (find k w.store.ledger)
    then (w, skipped)
    else if not (earned_row (find k w.store.claims))
    then (set_grant k seal w, skipped)
    else pay award tier k fls now w
