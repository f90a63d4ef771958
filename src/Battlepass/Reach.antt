-- ===== src/Battlepass/Reach.antt =====
-- The runs of the battle pass: ticks of the daemon, manual grants, resets and new catalogs, in any
-- order, with any answers of the game.
use pelican_egg_dune_awakeni.Base.{
  ℕ, ◌≡◌, refl, inl, Bool, true, false, not, ◌||◌, List, Option, none, some, Text, arith,
}
use pelican_egg_dune_awakeni.Battlepass.Deliver.{World, Award}
use pelican_egg_dune_awakeni.Base.Table.{find}
use pelican_egg_dune_awakeni.Battlepass.Watched.{IsWatched}
use pelican_egg_dune_awakeni.Battlepass.WatchedRuns.{
  run_tick-IsWatched, grant_account-IsWatched, reset_claims-IsWatched,
}
use pelican_egg_dune_awakeni.Battlepass.Store.{Key, Key_Eq, Mode, Tier, reset_claims, reseed_tiers}
use pelican_egg_dune_awakeni.Battlepass.Tick.{Config, Game, Granted, run_tick, grant_account}

-- one operation; `past` says whether a tick may award what was reached before it was watched
pub data Step (past : Bool) (w : World) : World → Type 0 where
  tick :
      (award : Award) (g : Game) (c : Config) (now : ℕ) (force : Bool)
      → not c.award_past || past ≡ true
      → Step past w (run_tick award g c now force w)
  grant :
      (award : Award) (target : Option Text) (account now : ℕ) {v : World} {r : Granted}
      → grant_account award target account now w ≡ some (v, r)
      → Step past w v
  reset :
      (m : Mode) (account : ℕ) → Step past w (record w { store = reset_claims m account w.store })
  reseed : (ts : List Tier) → Step past w (record w { store = reseed_tiers ts w.store })

pub data Reach (past : Bool) (start : World) : World → Type 0 where
  here : Reach past start start
  next : {w v : World} → Reach past start w → Step past w v → Reach past start v

Step-IsWatched :
    {w v : World} (k : Key) → Step false w v → IsWatched k w.store → IsWatched k v.store
unfolding reseed_tiers
Step-IsWatched {w} k (tick award g c now force a) h =
    run_tick-IsWatched award g c now force w k (ground arith) h
Step-IsWatched {w} k (grant award target account now {v} {r} e) h =
    grant_account-IsWatched award target account now w k {v = v} {r = r} e h
Step-IsWatched {w} k (reset m account) h = reset_claims-IsWatched m account w.store k h
Step-IsWatched {w} k (reseed ts) h = h

-- If no tick runs with `award_past` and an account starts without a claim to a tier, then as long
-- as its claim is earned or granted, the tier is on record as seen unsatisfied for the account.
pub Reach-IsWatched :
    {start w : World} (k : Key)
    → find k start.store.claims ≡ none
    → Reach false start w
    → IsWatched k w.store
Reach-IsWatched k e here = inl (rw e refl)
Reach-IsWatched k e (next r st) = Step-IsWatched k st (Reach-IsWatched k e r)
