-- ===== src/Battlepass/Store.antt =====
-- The four tables of the battle pass. A row's texts for people (label, category, error) and its
-- creation and update times, which no decision reads, are left out.
use pelican_egg_dune_awakeni.Base.{
  ℕ, ◌==◌, ◌≡◌, ◌↔◌, Bool, true, false, not, ◌&&◌, ◌||◌, List, Option, Text, text_eq, text_eq_iff,
  if◌then◌else◌, arith,
}
use pelican_egg_dune_awakeni.Base.Table.{Eq, Table, insert_or_ignore, keep, update_all}

-- the primary key of claims, of seen markers and of the ledger
pub record Key : Type 0 where
  pub tier_key : Text
  pub account : ℕ

abbrev pub same_key : Key → Key → Bool
same_key a b = a.account == b.account && text_eq a.tier_key b.tier_key

pub same_key_iff : (a b : Key) → (same_key a b ≡ true) ↔ (a ≡ b)
same_key_iff a b = ground (arith, text_eq_iff a.tier_key b.tier_key)

instance abbrev pub Key_Eq : Eq Key
Key_Eq = record { same = same_key; same_iff = same_key_iff }

pub data Signal : Type 0 where
  level journey_node player_tag : Signal

pub record Item : Type 0 where
  pub template : Text
  pub qty : ℕ
  pub quality : ℕ

pub record Tier : Type 0 where
  pub tier_key : Text
  pub signal : Signal
  pub signal_key : Text
  pub threshold : ℕ
  pub intel : ℕ
  -- `json.loads(reward_items)`, `[]` where that fails
  pub reward_items : List Item
  pub enabled : Bool

abbrev pub key_of : Tier → ℕ → Key
key_of t account = record { tier_key = t.tier_key; account = account }

pub data ClaimStatus : Type 0 where
  baseline earned granted : ClaimStatus

pub data GrantStatus : Type 0 where
  pending sealed exhausted : GrantStatus

-- a row of the grant ledger; `sealed` is its status 'granted'
pub record Grant : Type 0 where
  pub status : GrantStatus
  pub attempts : ℕ
  pub next_attempt_at : ℕ

pub record Store : Type 0 where
  pub tiers : List Tier
  pub claims : Table Key ClaimStatus
  pub seen : Table Key (Unit {0})
  pub ledger : Table Key Grant
  -- `bp:next_due` of the engine state
  pub next_due : Option ℕ

abbrev pub is_earned : ClaimStatus → Bool
is_earned earned = true
is_earned _ = false

abbrev pub is_sealed : GrantStatus → Bool
is_sealed sealed = true
is_sealed _ = false

abbrev pub is_pending : GrantStatus → Bool
is_pending pending = true
is_pending _ = false

unfoldable pub record_claim : Key → ClaimStatus → Store → Store
record_claim k status s = record s { claims = insert_or_ignore k status s.claims }

unfoldable pub mark_seen : Key → Store → Store
mark_seen k s = record s { seen = insert_or_ignore k tt s.seen }

unfoldable pub enqueue_grant : Key → Store → Store
enqueue_grant k s = record s {
  ledger =
      insert_or_ignore k (record { status = pending; attempts = 0; next_attempt_at = 0 }) s.ledger;
}

pub data Mode : Type 0 where
  demote purge : Mode

-- the rows of one account, or of all for account 0
abbrev pub in_scope : ℕ → Key → Bool
in_scope account k = account == 0 || k.account == account

abbrev pub demoted : ℕ → Key → ClaimStatus → ClaimStatus
demoted account k c = if in_scope account k && is_earned c then baseline else c

unfoldable pub drop_unsealed : ℕ → Store → Store
drop_unsealed account s = record s {
  ledger = keep (λ k g. not (in_scope account k) || is_sealed g.status) s.ledger;
}

unfoldable pub reset_claims : Mode → ℕ → Store → Store
unfolding drop_unsealed
reset_claims demote account s =
    let s' = drop_unsealed account s in
    record s' { claims = update_all (demoted account) s'.claims }
reset_claims purge account s =
    let s' = drop_unsealed account s in
    record s' {
      claims = keep (λ k c. not (in_scope account k)) s'.claims;
      seen = keep (λ k u. not (in_scope account k)) s'.seen;
    }

-- claims stay, and attach to the new tiers by their keys
unfoldable pub reseed_tiers : List Tier → Store → Store
reseed_tiers tiers s = record s { tiers = tiers }
