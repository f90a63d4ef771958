-- ===== src/Battlepass/PaidOnce.antt =====
-- Ticks, manual grants and resets pay a tier to an account at most once.
use pelican_egg_dune_awakeni.Base.{
  ℕ, ◌+◌, ◌≡◌, inl, inr, refl, ap, sym, subst, ◌∙◌, Bool, true, List, [], ◌∷◌, Option, none, some,
  Text, text_eq_iff, Bool-cases, Option-cases, All, All-weaken, is_some, is_empty, arith,
}
use pelican_egg_dune_awakeni.Base.Table.{
  Table, find, insert_or_ignore, select, find-upsert_self, find-upsert_ne, select-All,
}
use pelican_egg_dune_awakeni.Battlepass.Store.{
  Key, Key_Eq, same_key, same_key_iff, key_of, Tier, Store, Grant, is_earned, record_claim,
  mark_seen, enqueue_grant,
}
use pelican_egg_dune_awakeni.Battlepass.Deliver.{World, Award, sealed_row}
use pelican_egg_dune_awakeni.Battlepass.Tick.{
  Config, Player, Game, TierAction, mark, to_baseline, earn, act, judge, judge_read, scan_player,
  scan, enqueue_all, is_due, tier_by_key, by_account, deliver_to, deliver_due, grant_pass,
  enabled_tiers, scanned, pass, run_tick,
}
use pelican_egg_dune_awakeni.Battlepass.Paid.{
  times_paid, IsPaidOnce, deliver_grant-IsPaidOnce, deliver_grant-rows,
}

abbrev pub HasRow : World → Key → Type 0
HasRow w k = is_some (find k w.store.ledger) ≡ true

-- the state of another world with the same trace, in which sealed rows stay sealed
pub IsPaidOnce-moved :
    (k : Key) (w v : World)
    → v.trace ≡ w.trace
    → (sealed_row (find k w.store.ledger) ≡ true → sealed_row (find k v.store.ledger) ≡ true)
    → IsPaidOnce k w
    → IsPaidOnce k v
IsPaidOnce-moved k w v e f (inl z) = inl (ap (times_paid k) e ∙ z)
IsPaidOnce-moved k w v e f (inr (one, s)) = inr (ap (times_paid k) e ∙ one, f s)

pub sealed-insert :
    (j k : Key) (g : Grant) (rows : Table Key Grant)
    → sealed_row (find j rows) ≡ true
    → sealed_row (find j (insert_or_ignore k g rows)) ≡ true
sealed-insert j k g rows h = elim (Bool-cases (same_key k j)) [
  | inr ne ↦ rw (find-upsert_ne j k g (λ u. u) rows ne) h
  | inl eq ↦
      let same : k ≡ j = (same_key_iff k j).0 eq in
      elim (Option-cases (find j rows)) [
        | inl e ↦ ground arith
        | inr (u, e) ↦
            let there = find-upsert_self j g (λ u. u) rows in rw (same, there, e) (ground arith)
      ]
]

act-ledger : (a : TierAction) (k : Key) (s : Store) → (act a k s).ledger ≡ s.ledger
unfolding act mark_seen record_claim
act-ledger mark k s = refl
act-ledger to_baseline k s = refl
act-ledger earn k s = refl

judge-ledger :
    (c : Config) (before : Store) (p : Player) (journey tags : List Text) (ts : List Tier)
    (s : Store)
    → (judge c before p journey tags ts s).ledger ≡ s.ledger
unfolding judge
judge-ledger c before p journey tags [] s = refl
judge-ledger c before p journey tags (t ∷ ts) s =
    judge-ledger c before p journey tags ts _ ∙ act-ledger _ (key_of t p.account) s

judge_read-ledger :
    (c : Config) (p : Player) (ts : List Tier) (s : Store) (journey tags : Option (List Text))
    {s' : Store}
    → judge_read c p ts s journey tags ≡ some s'
    → s'.ledger ≡ s.ledger
judge_read-ledger c p ts s (some journey) (some tags) e =
    let l = judge-ledger c s p journey tags ts s in ground arith
judge_read-ledger c p ts s none tags e = ground arith
judge_read-ledger c p ts s (some journey) none e = ground arith

scan-ledger :
    (c : Config) (g : Game) (ps : List Player) (s : Store) {s' : Store}
    → scan c g ps s ≡ some s'
    → s'.ledger ≡ s.ledger
unfolding scan scan_player
scan-ledger c g [] s e = ground arith
scan-ledger c g (p ∷ ps) s {s'} e = elim (Option-cases (scan_player c g p s)) [
  | inl none_read ↦ ground arith
  | inr (s1, read) ↦
      let first = judge_read-ledger c p _ s _ _ {s' = s1} read in
      let rest : scan c g ps s1 ≡ some s' = simp read at e in
      scan-ledger c g ps s1 {s' = s'} rest ∙ first
]

enqueue_all-sealed :
    (ks : List Key) (s : Store) (j : Key)
    → sealed_row (find j s.ledger) ≡ true
    → sealed_row (find j (enqueue_all ks s).ledger) ≡ true
unfolding enqueue_all enqueue_grant
enqueue_all-sealed [] s j h = h
enqueue_all-sealed (k ∷ ks) s j h =
    enqueue_all-sealed ks (enqueue_grant k s) j (sealed-insert j k _ s.ledger h)

tier_by_key-key :
    (key : Text) (ts : List Tier) {t : Tier} → tier_by_key key ts ≡ some t → t.tier_key ≡ key
tier_by_key-key key [] e = ground arith
tier_by_key-key key (x ∷ ts) {t} e = elim (Option-cases (tier_by_key key ts)) [
  | inl missing ↦ ground (arith, text_eq_iff x.tier_key key)
  | inr (u, found) ↦ let r = tier_by_key-key key ts {t = u} found in ground arith
]

deliver_to-rows :
    (award : Award) (now account : ℕ) (t : Option Tier) (p : Option Player) (w : World) (j : Key)
    → HasRow w j
    → HasRow (deliver_to award now account t p w) j
deliver_to-rows award now account (some t) (some p) w j h = elim (Bool-cases (is_empty p.fls)) [
  | inl e ↦ rw e h
  | inr e ↦ rw e (deliver_grant-rows award t account p.fls now w j ∙ h)
]
deliver_to-rows award now account none p w j h = h
deliver_to-rows award now account (some t) none w j h = h

deliver_to-IsPaidOnce :
    (award : Award) (now : ℕ) (k : Key) (t : Option Tier) (p : Option Player) (w : World) (j : Key)
    → ((u : Tier) → t ≡ some u → u.tier_key ≡ k.tier_key)
    → HasRow w k
    → IsPaidOnce j w
    → IsPaidOnce j (deliver_to award now k.account t p w)
deliver_to-IsPaidOnce award now k (some t) (some p) w j own row h =
    let same : key_of t k.account ≡ k = let e = own t refl in ground arith in
    elim (Bool-cases (is_empty p.fls)) [
      | inl e ↦ rw e h
      | inr e ↦ rw e (
          deliver_grant-IsPaidOnce award t k.account p.fls now w j (subst (HasRow w) (sym same) row)
            h)
    ]
deliver_to-IsPaidOnce award now k none p w j own row h = h
deliver_to-IsPaidOnce award now k (some t) none w j own row h = h

deliver_due-IsPaidOnce :
    (award : Award) (now : ℕ) (ts : List Tier) (ps : List Player) (ks : List Key) (w : World)
    (j : Key)
    → All (HasRow w) ks
    → IsPaidOnce j w
    → IsPaidOnce j (deliver_due award now ts ps ks w)
unfolding deliver_due
deliver_due-IsPaidOnce award now ts ps [] w j rows h = h
deliver_due-IsPaidOnce award now ts ps (k ∷ ks) w j (row, rows) h =
    let t = tier_by_key k.tier_key ts in
    let p = by_account k.account ps in
    let w' = deliver_to award now k.account t p w in
    deliver_due-IsPaidOnce award now ts ps ks w' j
      (All-weaken (HasRow w) (HasRow w') ks (λ i r. deliver_to-rows award now k.account t p w i r)
        rows)
      (deliver_to-IsPaidOnce award now k t p w j (λ u e. tier_by_key-key k.tier_key ts {t = u} e)
        row h)

abbrev with_store : World → Store → World
with_store w s = record w { store = s }

grant_pass-IsPaidOnce :
    (award : Award) (now : ℕ) (ps : List Player) (w : World) (j : Key)
    → IsPaidOnce j w
    → IsPaidOnce j (grant_pass award now ps w)
unfolding grant_pass
grant_pass-IsPaidOnce award now ps w j h =
    let ks = select (λ k c. is_earned c) w.store.claims in
    let s = enqueue_all ks w.store in
    deliver_due-IsPaidOnce award now (enabled_tiers s.tiers) ps _ (with_store w s) j
      (select-All (λ k g. is_due now g) s.ledger s.ledger (λ k r. r))
      (IsPaidOnce-moved j w (with_store w s) refl (enqueue_all-sealed ks w.store j) h)

IsPaidOnce-store :
    (j : Key) (w : World) (s : Store)
    → s.ledger ≡ w.store.ledger
    → IsPaidOnce j w
    → IsPaidOnce j (record w { store = s })
IsPaidOnce-store j w s e h = IsPaidOnce-moved j w (record w { store = s }) refl (λ r. rw e r) h

scanned-IsPaidOnce :
    (award : Award) (c : Config) (now : ℕ) (ps : List Player) (w : World) (o : Option Store)
    (j : Key)
    → ((s : Store) → o ≡ some s → s.ledger ≡ w.store.ledger)
    → IsPaidOnce j w
    → IsPaidOnce j (scanned award c now ps w o)
scanned-IsPaidOnce award c now ps w none j kept h = h
scanned-IsPaidOnce award c now ps w (some s) j kept h =
    let h' = IsPaidOnce-store j w s (kept s refl) h in
    elim (Bool-cases c.auto_grant) [
      | inl e ↦ rw e (grant_pass-IsPaidOnce award now ps (record w { store = s }) j h')
      | inr e ↦ rw e h'
    ]

pass-IsPaidOnce :
    (award : Award) (c : Config) (g : Game) (now : ℕ) (o : Option (List Player)) (w : World)
    (j : Key)
    → IsPaidOnce j w
    → IsPaidOnce j (pass award c g now o w)
pass-IsPaidOnce award c g now none w j h = h
pass-IsPaidOnce award c g now (some ps) w j h =
    scanned-IsPaidOnce award c now ps w (scan c g ps w.store) j
      (λ s e. scan-ledger c g ps w.store {s' = s} e) h

pub run_tick-IsPaidOnce :
    (award : Award) (g : Game) (c : Config) (now : ℕ) (force : Bool) (w : World) (j : Key)
    → IsPaidOnce j w
    → IsPaidOnce j (run_tick award g c now force w)
unfolding run_tick
run_tick-IsPaidOnce award g c now force w j h =
    let paced = record (w.store) { next_due = some (now + c.poll_seconds) } in
    let h' = IsPaidOnce-store j w paced refl h in
    let passed =
      pass-IsPaidOnce award c g now g.tracked_players (record w { store = paced }) j h' in
    ground arith
