-- ===== src/Battlepass/WatchedRuns.antt =====
-- Deliveries, ticks, manual grants and resets keep it so that what is earned was watched.
use pelican_egg_dune_awakeni.Base.{
  ℕ, ◌+◌, ◌≡◌, inl, inr, refl, Bool, true, false, ◌&&◌, not, List, [], ◌∷◌, Option, none, some,
  Text, Bool-cases, Option-cases, is_empty, arith, ◌==◌, ltb,
}
use pelican_egg_dune_awakeni.Base.Table.{
  Table, find, update_all, find-update_ne, find-update_all, find-update_all-none, find-keep_key,
  select,
}
use pelican_egg_dune_awakeni.Battlepass.Deliver.{
  awarded, World, Award, exit_is, set_grant, settle, after_award, award_intel, pay, sealed_row,
  earned_row, deliver_grant,
}
use pelican_egg_dune_awakeni.Battlepass.Paid.{settle-claims, settle-seen}
use pelican_egg_dune_awakeni.Battlepass.Store.{
  Key, Key_Eq, same_key, same_key_iff, key_of, Tier, Store, ClaimStatus, baseline, earned, granted,
  is_earned, in_scope, demoted, Mode, demote, purge, enqueue_grant, reset_claims, drop_unsealed,
}
use pelican_egg_dune_awakeni.Battlepass.Tick.{
  Config, Player, Game, judge_read, scan_player, scan, enqueue_all, deliver_to, deliver_due,
  grant_pass, scanned, pass, run_tick, Granted, grant_tier, grant_earned, granted_to, grant_account,
  counted, nothing, is_retry, tier_by_key, by_account,
}
use pelican_egg_dune_awakeni.Battlepass.Watched.{kept, IsWatched, judge-IsWatched}

judge_read-IsWatched :
    (c : Config) (p : Player) (ts : List Tier) (s : Store) (journey tags : Option (List Text))
    (j : Key) {s' : Store}
    → c.award_past ≡ false
    → judge_read c p ts s journey tags ≡ some s'
    → IsWatched j s
    → IsWatched j s'
judge_read-IsWatched c p ts s (some journey) (some tags) j past e h =
    let w = judge-IsWatched c s p journey tags ts s j past (λ k r. r) h in ground arith
judge_read-IsWatched c p ts s none tags j past e h = ground arith
judge_read-IsWatched c p ts s (some journey) none j past e h = ground arith

scan-IsWatched :
    (c : Config) (g : Game) (ps : List Player) (s : Store) (j : Key) {s' : Store}
    → c.award_past ≡ false
    → scan c g ps s ≡ some s'
    → IsWatched j s
    → IsWatched j s'
unfolding scan scan_player
scan-IsWatched c g [] s j past e h = ground arith
scan-IsWatched c g (p ∷ ps) s j {s'} past e h = elim (Option-cases (scan_player c g p s)) [
  | inl none_read ↦ ground arith
  | inr (s1, read) ↦
      let first = judge_read-IsWatched c p _ s _ _ j {s' = s1} past read h in
      let rest : scan c g ps s1 ≡ some s' = simp read at e in
      scan-IsWatched c g ps s1 j {s' = s'} past rest first
]

enqueue_all-IsWatched :
    (ks : List Key) (s : Store) (j : Key) → IsWatched j s → IsWatched j (enqueue_all ks s)
unfolding enqueue_all enqueue_grant
enqueue_all-IsWatched [] s j h = h
enqueue_all-IsWatched (k ∷ ks) s j h = enqueue_all-IsWatched ks (enqueue_grant k s) j h

earned_row-kept : (o : Option ClaimStatus) → earned_row o ≡ true → kept o ≡ true
earned_row-kept none h = cc
earned_row-kept (some baseline) h = cc
earned_row-kept (some earned) h = refl
earned_row-kept (some granted) h = refl

settle-IsWatched :
    (t : Tier) (k : Key) (fls : Text) (w : World) (j : Key)
    → earned_row (find k w.store.claims) ≡ true
    → IsWatched j w.store
    → IsWatched j (settle t k fls w).store
settle-IsWatched t k fls w j won (inr h) = inr (rw (settle-seen t k fls w) h)
settle-IsWatched t k fls w j won (inl h) = elim (Bool-cases (same_key k j)) [
  | inr ne ↦
      inl (rw (settle-claims t k fls w, find-update_ne j k (λ c. granted) w.store.claims ne) h)
  | inl eq ↦
      let same : k ≡ j = (same_key_iff k j).0 eq in
      let was = earned_row-kept (find k w.store.claims) won in cc
]

pay-IsWatched :
    (award : Award) (t : Tier) (k : Key) (fls : Text) (now : ℕ) (w : World) (j : Key)
    → earned_row (find k w.store.claims) ≡ true
    → IsWatched j w.store
    → IsWatched j (pay award t k fls now w).0.store
unfolding pay award_intel after_award set_grant
pay-IsWatched award t k fls now w j won h =
    let free = settle-IsWatched t k fls w j won h in
    let rc = award w.trace fls t.intel in
    let paying =
      settle-IsWatched t k fls (record w { trace = awarded k fls t.intel rc ∷ w.trace }) j won h in
    elim (Bool-cases (ltb 0 t.intel)) [
      | inr none_left ↦ rw none_left free
      | inl some_intel ↦ elim (Bool-cases (exit_is 4 rc)) [
        | inl four ↦ rw (some_intel, four) h
        | inr other ↦ elim (Bool-cases (exit_is 0 rc)) [
          | inl fine ↦ rw (some_intel, other, fine) paying
          | inr bad ↦ rw (some_intel, other, bad) h
        ]
      ]
    ]

deliver_grant-IsWatched :
    (award : Award) (t : Tier) (account : ℕ) (fls : Text) (now : ℕ) (w : World) (j : Key)
    → IsWatched j w.store
    → IsWatched j (deliver_grant award t account fls now w).0.store
unfolding deliver_grant set_grant
deliver_grant-IsWatched award t account fls now w j h =
    let k = key_of t account in
    elim (Bool-cases (sealed_row (find k w.store.ledger))) [
      | inl e ↦ rw e h
      | inr e ↦ elim (Bool-cases (earned_row (find k w.store.claims))) [
        | inr lost ↦ rw (e, lost) h
        | inl won ↦ rw (e, won) (pay-IsWatched award t k fls now w j won h)
      ]
    ]

deliver_to-IsWatched :
    (award : Award) (now account : ℕ) (t : Option Tier) (p : Option Player) (w : World) (j : Key)
    → IsWatched j w.store
    → IsWatched j (deliver_to award now account t p w).store
deliver_to-IsWatched award now account (some t) (some p) w j h =
    elim (Bool-cases (is_empty p.fls)) [
      | inl e ↦ rw e h
      | inr e ↦ rw e (deliver_grant-IsWatched award t account p.fls now w j h)
    ]
deliver_to-IsWatched award now account none p w j h = h
deliver_to-IsWatched award now account (some t) none w j h = h

deliver_due-IsWatched :
    (award : Award) (now : ℕ) (ts : List Tier) (ps : List Player) (ks : List Key) (w : World)
    (j : Key)
    → IsWatched j w.store
    → IsWatched j (deliver_due award now ts ps ks w).store
unfolding deliver_due
deliver_due-IsWatched award now ts ps [] w j h = h
deliver_due-IsWatched award now ts ps (k ∷ ks) w j h =
    deliver_due-IsWatched award now ts ps ks _ j (
      deliver_to-IsWatched award now k.account (tier_by_key k.tier_key ts) (by_account k.account ps)
        w j h)

grant_pass-IsWatched :
    (award : Award) (now : ℕ) (ps : List Player) (w : World) (j : Key)
    → IsWatched j w.store
    → IsWatched j (grant_pass award now ps w).store
unfolding grant_pass
grant_pass-IsWatched award now ps w j h =
    let s = enqueue_all (select (λ k c. is_earned c) w.store.claims) w.store in
    deliver_due-IsWatched award now _ ps _ (record w { store = s }) j
      (enqueue_all-IsWatched (select (λ k c. is_earned c) w.store.claims) w.store j h)

scanned-IsWatched :
    (award : Award) (c : Config) (now : ℕ) (ps : List Player) (w : World) (o : Option Store)
    (j : Key)
    → ((s : Store) → o ≡ some s → IsWatched j s)
    → IsWatched j w.store
    → IsWatched j (scanned award c now ps w o).store
scanned-IsWatched award c now ps w none j kept_so h = h
scanned-IsWatched award c now ps w (some s) j kept_so h =
    let h' = kept_so s refl in
    elim (Bool-cases c.auto_grant) [
      | inl e ↦ rw e (grant_pass-IsWatched award now ps (record w { store = s }) j h')
      | inr e ↦ rw e h'
    ]

pass-IsWatched :
    (award : Award) (c : Config) (g : Game) (now : ℕ) (o : Option (List Player)) (w : World)
    (j : Key)
    → c.award_past ≡ false
    → IsWatched j w.store
    → IsWatched j (pass award c g now o w).store
pass-IsWatched award c g now none w j past h = h
pass-IsWatched award c g now (some ps) w j past h =
    scanned-IsWatched award c now ps w (scan c g ps w.store) j
      (λ s e. scan-IsWatched c g ps w.store j {s' = s} past e h) h

pub run_tick-IsWatched :
    (award : Award) (g : Game) (c : Config) (now : ℕ) (force : Bool) (w : World) (j : Key)
    → c.award_past ≡ false
    → IsWatched j w.store
    → IsWatched j (run_tick award g c now force w).store
unfolding run_tick
run_tick-IsWatched award g c now force w j past h =
    let paced = record (w.store) { next_due = some (now + c.poll_seconds) } in
    let passed =
      pass-IsWatched award c g now g.tracked_players (record w { store = paced }) j past h in
    ground arith

grant_tier-IsWatched :
    (award : Award) (t : Option Tier) (account : ℕ) (fls : Text) (now : ℕ) (w : World) (j : Key)
    → IsWatched j w.store
    → IsWatched j (grant_tier award t account fls now w).0.store
unfolding enqueue_grant
grant_tier-IsWatched award none account fls now w j h = h
grant_tier-IsWatched award (some t) account fls now w j h =
    deliver_grant-IsWatched award t account fls now
      (record w { store = enqueue_grant (key_of t account) w.store }) j h

grant_earned-IsWatched :
    (award : Award) (account : ℕ) (fls : Text) (now : ℕ) (ks : List Key) (w : World) (r : Granted)
    (j : Key)
    → IsWatched j w.store
    → IsWatched j (grant_earned award account fls now ks w r).0.store
unfolding grant_earned
grant_earned-IsWatched award account fls now [] w r j h = h
grant_earned-IsWatched award account fls now (k ∷ ks) w r j h =
    let t = tier_by_key k.tier_key w.store.tiers in
    let step = grant_tier award t account fls now w in
    let h' = grant_tier-IsWatched award t account fls now w j h in
    elim (Bool-cases (is_retry step.1)) [
      | inl e ↦ rw e h'
      | inr e ↦
          rw e (grant_earned-IsWatched award account fls now ks step.0 (counted step.1 r) j h')
    ]

granted_to-IsWatched :
    (award : Award) (target : Option Text) (account now : ℕ) (ks : List Key) (w : World) (j : Key)
    {v : World} {r : Granted}
    → granted_to award target account now ks w ≡ some (v, r)
    → IsWatched j w.store
    → IsWatched j v.store
granted_to-IsWatched award none account now ks w j e h = ground arith
granted_to-IsWatched award (some fls) account now ks w j {v} {r} e h =
    let h' = grant_earned-IsWatched award account fls now ks w nothing j h in
    elim (Bool-cases (is_empty fls)) [
      | inl none_left ↦ ground arith
      | inr target_found ↦ ground arith
    ]

pub grant_account-IsWatched :
    (award : Award) (target : Option Text) (account now : ℕ) (w : World) (j : Key) {v : World}
    {r : Granted}
    → grant_account award target account now w ≡ some (v, r)
    → IsWatched j w.store
    → IsWatched j v.store
unfolding grant_account
grant_account-IsWatched award target account now w j {v} {r} e h =
    let ks = select (λ k c. k.account == account && is_earned c) w.store.claims in
    elim (Bool-cases (is_empty ks)) [
      | inl idle ↦ ground arith
      | inr busy ↦
          let run : granted_to award target account now ks w ≡ some (v, r) = simp busy at e in
          granted_to-IsWatched award target account now ks w j {v = v} {r = r} run h
    ]

kept-demoted :
    (account : ℕ) (j : Key) (rows : Table Key ClaimStatus)
    → kept (find j rows) ≡ false
    → kept (find j (update_all (demoted account) rows)) ≡ false
kept-demoted account j rows h = elim (Option-cases (find j rows)) [
  | inl e ↦ rw (find-update_all-none j (demoted account) rows e) refl
  | inr (c, e) ↦ let there = find-update_all j (demoted account) rows {u = c} e in ground arith
]

pub reset_claims-IsWatched :
    (m : Mode) (account : ℕ) (s : Store) (j : Key)
    → IsWatched j s
    → IsWatched j (reset_claims m account s)
unfolding reset_claims drop_unsealed
reset_claims-IsWatched demote account s j (inl h) = inl (kept-demoted account j s.claims h)
reset_claims-IsWatched demote account s j (inr h) = inr h
reset_claims-IsWatched purge account s j h =
    let c = find-keep_key j (λ k. not (in_scope account k)) s.claims in
    let m = find-keep_key j (λ k. not (in_scope account k)) s.seen in
    elim (Bool-cases (not (in_scope account j))) [
      | inl out ↦ rw (c, m, out) h
      | inr within ↦ inl (rw (c, within) refl)
    ]
