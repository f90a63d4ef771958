-- ===== src/Battlepass/Watched.antt =====
-- Without `award_past`, what is earned was watched: the tier was seen unsatisfied for the account.
use pelican_egg_dune_awakeni.Base.{
  ◌≡◌, ◌⊎◌, inl, inr, refl, sym, Bool, true, false, List, [], ◌∷◌, Option, none, some, Text,
  Bool-cases, Option-cases, is_some, arith,
}
use pelican_egg_dune_awakeni.Base.Table.{
  Table, find, insert_or_ignore, find-upsert_self, find-upsert_ne, is_some-upsert,
}
use pelican_egg_dune_awakeni.Battlepass.Store.{
  Key, Key_Eq, same_key, same_key_iff, key_of, Tier, Store, ClaimStatus, baseline, earned, granted,
  record_claim, mark_seen,
}
use pelican_egg_dune_awakeni.Battlepass.Tick.{
  Config, Player, TierAction, mark, to_baseline, earn, act, tier_action, tier_satisfied, judge,
}

abbrev pub kept : Option ClaimStatus → Bool
kept none = false
kept (some baseline) = false
kept (some earned) = true
kept (some granted) = true

-- a claim that is earned or granted has a seen marker
abbrev pub IsWatched : Key → Store → Type 0
IsWatched j s = (kept (find j s.claims) ≡ false) ⊎ (is_some (find j s.seen) ≡ true)

act-seen :
    (a : TierAction) (k : Key) (s : Store) (j : Key)
    → is_some (find j s.seen) ≡ true
    → is_some (find j (act a k s).seen) ≡ true
unfolding act mark_seen record_claim
act-seen mark k s j h = is_some-upsert j k tt (λ u. u) s.seen h
act-seen to_baseline k s j h = h
act-seen earn k s j h = h

kept-insert_baseline :
    (j k : Key) (rows : Table Key ClaimStatus)
    → kept (find j rows) ≡ false
    → kept (find j (insert_or_ignore k baseline rows)) ≡ false
kept-insert_baseline j k rows h = elim (Bool-cases (same_key k j)) [
  | inr ne ↦ rw (find-upsert_ne j k baseline (λ u. u) rows ne) h
  | inl eq ↦
      let same : k ≡ j = (same_key_iff k j).0 eq in
      let there = find-upsert_self j baseline (λ u. u) rows in
      elim (Option-cases (find j rows)) [
        | inl e ↦ rw (same, there, e) refl
        | inr (u, e) ↦ rw (same, there, e) (ground arith)
      ]
]

act-IsWatched :
    (a : TierAction) (k : Key) (s : Store) (j : Key)
    → (a ≡ earn → is_some (find k s.seen) ≡ true)
    → IsWatched j s
    → IsWatched j (act a k s)
unfolding act mark_seen record_claim
act-IsWatched mark k s j w (inl h) = inl h
act-IsWatched mark k s j w (inr h) = inr (is_some-upsert j k tt (λ u. u) s.seen h)
act-IsWatched to_baseline k s j w (inl h) = inl (kept-insert_baseline j k s.claims h)
act-IsWatched to_baseline k s j w (inr h) = inr h
act-IsWatched earn k s j w (inr h) = inr h
act-IsWatched earn k s j w (inl h) = elim (Bool-cases (same_key k j)) [
  | inr ne ↦ inl (rw (find-upsert_ne j k earned (λ u. u) s.claims ne) h)
  | inl eq ↦ let same : k ≡ j = (same_key_iff k j).0 eq in inr (rw (sym same) (w refl))
]

earn-seen : (satisfied seen : Bool) → tier_action satisfied seen false ≡ earn → seen ≡ true
unfolding tier_action
earn-seen satisfied seen e = ground arith

pub judge-IsWatched :
    (c : Config) (before : Store) (p : Player) (journey tags : List Text) (ts : List Tier)
    (s : Store) (j : Key)
    → c.award_past ≡ false
    → ((k : Key) → is_some (find k before.seen) ≡ true → is_some (find k s.seen) ≡ true)
    → IsWatched j s
    → IsWatched j (judge c before p journey tags ts s)
unfolding judge
judge-IsWatched c before p journey tags [] s j past mono h = h
judge-IsWatched c before p journey tags (t ∷ ts) s j past mono h =
    let k = key_of t p.account in
    let a =
      tier_action (tier_satisfied t p journey tags) (is_some (find k before.seen)) c.award_past in
    judge-IsWatched c before p journey tags ts (act a k s) j past
      (λ i r. act-seen a k s i (mono i r))
      (act-IsWatched a k s j
        (λ e. mono k (earn-seen (tier_satisfied t p journey tags) _ (rw (sym past) e))) h)
