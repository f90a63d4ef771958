-- ===== src/Events/Tick.antt =====
-- `_evaluate_event`, `_backfill`, `_retry_pass` and `run_tick` of scripts/admin_events.py.
use pelican_egg_dune_awakeni.Base.{
  ℕ, ◌+◌, ◌==◌, Bool, true, false, not, ◌&&◌, ◌||◌, List, [], ◌∷◌, Option, none, some, Text, leb,
  ltb, is_empty, is_some, or_else, if◌then◌else◌,
}
use pelican_egg_dune_awakeni.Base.Int.{ℤ, pos_part}
use pelican_egg_dune_awakeni.Base.Table.{find, select}
use pelican_egg_dune_awakeni.Events.Engine.{
  Floats, Position, Player, World, Game, Run, ok, raised, and_then, lookup, by_account, over_row,
  cursor_row, set_claims, key_of, apply_outcome, stands,
}
use pelican_egg_dune_awakeni.Events.Rewards.{Spec, Cursor}
use pelican_egg_dune_awakeni.Events.Store.{
  ClaimKey, ClaimKey_Eq, Status, pending, Claim, Zone, Kind, zone_race, level_milestone,
  tag_milestone, Definition, Store, record_failed, max_attempts,
}

abbrev pub is_pending : Status → Bool
is_pending pending = true
is_pending _ = false

abbrev pub is_due : ℕ → Claim → Bool
is_due now c = is_pending c.status && ltb c.attempts max_attempts && leb c.next_attempt_at now

-- `poll if poll > 0 else DEFAULT_POLL_SECS`
abbrev pub poll_or_default : ℤ → ℕ
poll_or_default n = if pos_part n == 0 then 7 else pos_part n

abbrev elem : ℕ → List ℕ → Bool
elem a [] = false
elem a (b ∷ bs) = a == b || elem a bs

-- the keys of the dict of the players by account
abbrev pub keys_of : List ℕ → List Player → List ℕ
keys_of seen [] = []
keys_of seen (p ∷ ps) =
    let rest = keys_of seen ps in
    let more = keys_of (p.account ∷ seen) ps in
    if elem p.account seen then rest else p.account ∷ more

abbrev pub accounts : List Player → List ℕ
accounts ps = keys_of [] ps

-- nobody is asked for of an empty list
abbrev pub asked : {A : Type 0} → List ℕ → Option (List A) → Option (List A)
asked ids answer = if is_empty ids then some [] else answer

abbrev pub present : List Player → List ℕ → List ℕ
present ps [] = []
present ps (a ∷ as') =
    let rest = present ps as' in if is_some (by_account a ps) then a ∷ rest else rest

abbrev pub of_level : ℕ → List (ℕ × ℕ) → List ℕ → List ℕ
of_level threshold levels [] = []
of_level threshold levels (a ∷ as') =
    let rest = of_level threshold levels as' in
    if leb threshold (or_else (lookup a levels) 0) then a ∷ rest else rest

-- the join of a claim with its event
abbrev pub definition_of : {F : Type 0} → ClaimKey → List (Definition F) → Option (Definition F)
definition_of k [] = none
definition_of k (e ∷ es) =
    let rest = definition_of k es in
    if e.id == k.event && e.version == k.version then some e else rest

module _ {F : Type 0} (fl : Floats F) (hash : Spec → Text) (g : Game F) (now : ℕ) where
  -- a KeyError for an account that is not among the players
  abbrev pub apply_for : Definition F → Option Player → Bool → Bool → World F → Run F
  apply_for e none announce grant w = raised w
  apply_for e (some p) announce grant w = ok (apply_outcome hash g e p now announce grant w)

  -- at most one outcome per tick
  unfoldable pub race :
      Definition F → Zone F → List Player → List (ℕ × Position F) → List ℕ → World F → Run F
  race e zone ps places [] w = ok w
  race e zone ps places (a ∷ as') w =
      let rest = race e zone ps places as' w in
      if stands fl zone (lookup a places) && not (over_row (find (key_of e a) w.store.claims))
      then apply_for e (by_account a ps) true true w
      else rest

  abbrev pub race_read :
      Definition F → Zone F → List Player → Option (List (ℕ × Position F)) → World F → Run F
  race_read e zone ps none w = raised w
  race_read e zone ps (some places) w = race e zone ps places zone.participants w

  abbrev pub milestone_step : Definition F → List Player → ℕ → World F → Run F
  milestone_step e ps a w =
      if over_row (find (key_of e a) w.store.claims)
      then ok w
      else apply_for e (by_account a ps) true true w

  unfoldable pub milestones : Definition F → List Player → List ℕ → World F → Run F
  milestones e ps [] w = ok w
  milestones e ps (a ∷ as') w = and_then (milestone_step e ps a w) (λ v. milestones e ps as' v)

  -- who meets a milestone, `none` where the read fails
  abbrev pub leveled : ℕ → List Player → Option (List (ℕ × ℕ)) → Option (List ℕ)
  leveled threshold ps none = none
  leveled threshold ps (some levels) = some (of_level threshold levels (accounts ps))

  abbrev pub qualifiers : Kind F → List Player → Option (List ℕ)
  qualifiers (zone_race z) ps = some []
  qualifiers (level_milestone threshold) ps =
      leveled threshold ps (asked (accounts ps) (g.levels (accounts ps)))
  qualifiers (tag_milestone tag) ps = asked (accounts ps) (g.tag_holders (accounts ps) tag)

  abbrev pub milestones_read : Definition F → List Player → Option (List ℕ) → World F → Run F
  milestones_read e ps none w = raised w
  milestones_read e ps (some as') w = milestones e ps as' w

  abbrev pub evaluate_kind : Definition F → Kind F → List Player → World F → Run F
  evaluate_kind e (zone_race z) ps w =
      let there = present ps z.participants in
      if is_empty there then ok w else race_read e z ps (g.positions there) w
  evaluate_kind e (level_milestone n) ps w =
      milestones_read e ps (qualifiers (level_milestone n) ps) w
  evaluate_kind e (tag_milestone tag) ps w =
      milestones_read e ps (qualifiers (tag_milestone tag) ps) w

  unfoldable pub evaluate_event : Definition F → List Player → World F → Run F
  evaluate_event e ps w = evaluate_kind e e.kind ps w

  abbrev pub backfill_step : Definition F → List Player → ℕ → World F → Run F
  backfill_step e ps a w =
      if is_some (find (key_of e a) w.store.claims)
      then ok w
      else apply_for e (by_account a ps) false e.award_past w

  unfoldable pub backfill_accounts : Definition F → List Player → List ℕ → World F → Run F
  backfill_accounts e ps [] w = ok w
  backfill_accounts e ps (a ∷ as') w =
      and_then (backfill_step e ps a w) (λ v. backfill_accounts e ps as' v)

  abbrev pub backfill_read : Definition F → List Player → Option (List ℕ) → World F → Run F
  backfill_read e ps none w = raised w
  backfill_read e ps (some as') w = backfill_accounts e ps as' w

  unfoldable pub backfill : List Player → List (Definition F) → World F → Run F
  backfill ps [] w = ok w
  backfill ps (e ∷ es) w =
      and_then (if e.enabled then backfill_read e ps (qualifiers e.kind ps) w else ok w)
        (λ v. backfill ps es v)

  -- `target` is `none` on a failed read, and `some none` where there is no such player
  abbrev pub retry_target :
      Definition F → ClaimKey → Option Cursor → Option (Option Player) → World F → Run F
  retry_target e k cursor none w = raised w
  retry_target e k cursor (some none) w =
      ok (set_claims (record_failed k cursor now w.store.claims) w)
  retry_target e k cursor (some (some p)) w =
      if is_empty p.fls
      then ok (set_claims (record_failed k cursor now w.store.claims) w)
      else ok (apply_outcome hash g e (record p { account = k.account }) now false true w)

  -- a claim whose event is gone, or has another version, is not among the rows
  abbrev pub retry_claim : Option (Definition F) → ClaimKey → World F → Run F
  retry_claim none k w = ok w
  retry_claim (some e) k w =
      retry_target e k (cursor_row (find k w.store.claims)) (g.target k.account) w

  unfoldable pub retry_pass : List (Definition F) → List ClaimKey → World F → Run F
  retry_pass es [] w = ok w
  retry_pass es (k ∷ ks) w =
      and_then (retry_claim (definition_of k es) k w) (λ v. retry_pass es ks v)

  module _ (jitter : ℕ → ℕ → ℕ) where
    -- `jitter id n` is the roll `rng.randint(0, n)` for the event
    abbrev pub schedule : Definition F → World F → World F
    schedule e w = record w {
      store = record (w.store) {
        next_due = λ id.
            if id == e.id
            then some
                (now + poll_or_default e.poll_seconds + jitter e.id (pos_part e.jitter_seconds))
            else w.store.next_due id;
      };
    }

    unfoldable pub evaluate_all : List Player → List (Definition F) → World F → Run F
    evaluate_all ps [] w = ok w
    evaluate_all ps (e ∷ es) w =
        and_then (evaluate_event e ps w) (λ v. evaluate_all ps es (schedule e v))

    abbrev pub is_event_due : Store F → Definition F → Bool
    is_event_due s e = e.enabled && leb (or_else (s.next_due e.id) 0) now

    abbrev pub due_events : Store F → List (Definition F) → List (Definition F)
    due_events s [] = []
    due_events s (e ∷ es) =
        let rest = due_events s es in if is_event_due s e then e ∷ rest else rest

    abbrev pub with_players :
        Bool → List (Definition F) → List (Definition F) → Option (List Player) → World F → Run F
    with_players boot es due none w = raised w
    with_players boot es due (some ps) w = and_then (if boot then backfill ps es w else ok w) (λ v.
        and_then (evaluate_all ps due v)
          (λ u. retry_pass es (select (λ k c. is_due now c) u.store.claims) u))

    -- the players are read only if they are needed
    unfoldable pub tick : Bool → World F → Run F
    tick boot w =
        let due = due_events w.store w.store.events in
        with_players boot w.store.events due
          (if not (is_empty due) || boot then g.online_players else some []) w

    -- an exception rolls the tables back
    abbrev pub committed : World F → Run F → World F
    committed w r = if r.fine then r.world else record (r.world) { store = w.store }

    unfoldable pub run_tick : Bool → Bool → World F → World F
    unfolding tick
    run_tick enabled boot w = if enabled then committed w (tick boot w) else w
