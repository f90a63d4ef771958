-- ===== src/Welcome/Store.antt =====
-- `WelcomeLedger`. The names of characters and the times, which no decision reads, are left out; of
-- an error the templates that failed are kept.
use pelican_egg_dune_awakeni.Base.{
  ℕ, ◌+◌, ◌==◌, ◌≡◌, ◌↔◌, Bool, true, false, not, ◌&&◌, List, [], Text, text_eq, text_eq_iff,
  is_some, length, arith,
}
use pelican_egg_dune_awakeni.Base.Table.{Eq, Table, find, upsert, keep, select}

-- the primary key
pub record Key : Type 0 where
  pub fls : Text
  pub version : Text
  pub account : ℕ

abbrev pub same_key : Key → Key → Bool
same_key a b = a.account == b.account && (text_eq a.fls b.fls && text_eq a.version b.version)

pub same_key_iff : (a b : Key) → (same_key a b ≡ true) ↔ (a ≡ b)
same_key_iff a b = ground (arith, text_eq_iff a.fls b.fls, text_eq_iff a.version b.version)

instance abbrev pub Key_Eq : Eq Key
Key_Eq = record { same = same_key; same_iff = same_key_iff }

pub data Status : Type 0 where
  granted failed : Status

pub record Row : Type 0 where
  pub status : Status
  pub attempts : ℕ
  pub last_error : List Text

abbrev pub Ledger : Type 0
Ledger = Table Key Row

abbrev pub same_status : Status → Status → Bool
same_status granted granted = true
same_status failed failed = true
same_status _ _ = false

abbrev pub is_failed : Row → Bool
is_failed r = same_status r.status failed

abbrev pub granted_exists : Key → Ledger → Bool
granted_exists k l = is_some (find k l)

abbrev pub again : Status → List Text → Row → Row
again s reasons r = record { status = s; attempts = r.attempts + 1; last_error = reasons }

abbrev pub record_granted : Key → Ledger → Ledger
record_granted k l =
    upsert k (record { status = granted; attempts = 1; last_error = [] }) (again granted []) l

abbrev pub record_failed : Key → List Text → Ledger → Ledger
record_failed k reasons l =
    upsert k (record { status = failed; attempts = 1; last_error = reasons }) (again failed reasons)
      l

-- with the number of rows removed
abbrev pub delete_failed : Key → Ledger → ℕ × Ledger
delete_failed k l = (
  length (select (λ j r. same_key j k && is_failed r) l),
  keep (λ j r. not (same_key j k && is_failed r)) l,
)

abbrev pub delete_all_failed : Ledger → ℕ × Ledger
delete_all_failed l = (length (select (λ j r. is_failed r) l), keep (λ j r. not (is_failed r)) l)

-- the granted and the failed rows
abbrev pub stats : Ledger → ℕ × ℕ
stats l = (length (select (λ j r. not (is_failed r)) l), length (select (λ j r. is_failed r) l))
