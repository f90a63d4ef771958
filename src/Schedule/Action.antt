-- ===== src/Schedule/Action.antt =====
-- Scheduler code that reads and writes the ledger and acts on the world. The world answers through
-- `Env`: each answer may depend on all that was done before it. An exception ends the tick, and so
-- does the death of the process; what was done before either stays done.
use pelican_egg_dune_awakeni.Base.{ℕ, Bool, List, ◌∷◌, Option, Text, String}
use pelican_egg_dune_awakeni.Base.Int.{ℤ}
use pelican_egg_dune_awakeni.Schedule.Ledger.{Ledger, RunKey, Status, Detail, record_run}
use pelican_egg_dune_awakeni.Schedule.Time.{iso}

pub data Result (A : Type 0) : Type 0 where
  ok : A → Result A
  raised : Result A
  killed : Result A

-- the verbs of admin-publish.sh that the scheduler runs
pub data Command : Type 0 where
  db_backup : Command
  broadcast : Text → Text → ℕ → Command
  shutdown_restart : ℕ → ℕ → Command
  shutdown_cancel : Command

-- a finished `subprocess.run`, or its `OSError` or `SubprocessError`
pub data Proc : Type 0 where
  not_run : Text → Proc
  exited : ℤ → Text → Text → Proc

-- `admin_pelican.call`: no answer, or a status with the panel's own words
pub data Response : Type 0 where
  no_response : Text → Response
  responded : ℕ → Text → Response

-- one entry of `maps` in mock-k8s's /status
pub record MapEntry : Type 0 where
  pub map_name : String
  pub key : Text
  pub desired : ℕ

pub data Event : Type 0 where
  ran : Command → Event
  asked_restart : Event
  fetched_status : Event
  counted_players : String → Event
  patched : Text → Text → ℕ → Event
  renewal_begun : Event

-- What the scripts do not decide: the clock, the processes they start, the panel, mock-k8s, the
-- environment variables and the files of the certificate.
pub record Env : Type 0 where
  pub clock : List Event → ℕ
  pub publish : List Event → Command → Result Proc
  pub panel : List Event → Result Response
  pub mock_status : List Event → Result (Option (List MapEntry))
  pub online_count : List Event → String → Result (Option ℕ)
  pub patch_scale : List Event → Text → Text → ℕ → Result (Option ℕ)
  pub configured : Bool
  pub acme_backend : Bool
  pub certificate_file : List Event → Bool
  pub renewal_idle : List Event → Bool

pub record World : Type 0 where
  pub ledger : Ledger
  pub trace : List Event

abbrev pub M : Type 0 → Type 0
M A = World → Result A × World

module _ {A : Type 0} where
  unfoldable pub pure : A → M A
  pure a w = (ok a, w)

  unfoldable pub gets : (Ledger → A) → M A
  gets f w = (ok (f w.ledger), w)

  -- the world is asked, and the asking is on record whatever comes of it
  unfoldable pub ask : Event → (List Event → Result A) → M A
  ask e answer w = (answer w.trace, record w { trace = e ∷ w.trace })

  -- `try: … except Exception: …`
  abbrev pub handle_result : Result A → M A → M A
  handle_result raised h w = h w
  handle_result r h w = (r, w)

  unfoldable pub catch : M A → M A → M A
  catch m h w = let (r, w') = m w in handle_result r h w'

unfoldable pub modify : (Ledger → Ledger) → M (Unit {0})
modify f w = (ok tt, record w { ledger = f w.ledger })

module _ {A B : Type 0} where
  abbrev pub resume : Result A → (A → M B) → M B
  resume (ok a) k w = k a w
  resume raised k w = (raised, w)
  resume killed k w = (killed, w)

  infixl 5 ◌>>=◌ ◌>>◌
  unfoldable pub ◌>>=◌ : M A → (A → M B) → M B
  ◌>>=◌ m k w = let (r, w') = m w in resume r k w'

  abbrev pub ◌>>◌ : M A → M B → M B
  m >> k = m >>= λ _. k

-- `ledger.record`, which stamps the row with the clock of that moment
unfoldable pub record_now : Env → RunKey → Status → Detail → M (Unit {0})
record_now env key status detail w =
    (ok tt, record w { ledger = record_run key status detail (iso (env.clock w.trace)) w.ledger })
