-- ===== src/Events/Passes.antt =====
-- The backfill, the events that are due and the whole tick keep every claim orderly.
use pelican_egg_dune_awakeni.Base.{
  ℕ, ◌≡◌, inl, inr, refl, ap, sym, subst, Bool, false, ◌==◌, List, [], ◌∷◌, Option, none, some,
  Text, All, Bool-cases, Option-cases, if◌then◌else◌, arith,
}
use pelican_egg_dune_awakeni.Base.Table.{find}
use pelican_egg_dune_awakeni.Events.Engine.{Floats, World, Game, Player, ok, by_account, key_of}
use pelican_egg_dune_awakeni.Events.Orderly.{IsOrderly-same}
use pelican_egg_dune_awakeni.Events.Retries.{retries-IsFine}
use pelican_egg_dune_awakeni.Events.Rewards.{Spec}
use pelican_egg_dune_awakeni.Events.Store.{ClaimKey, ClaimKey_Eq, Definition, Store}
use pelican_egg_dune_awakeni.Events.Tick
use pelican_egg_dune_awakeni.Events.Ticks.{
  IsReward, IsSound, IsFine, apply-IsSound, and_then-IsFine, if-IsFine, evaluate_kind-IsFine,
}

-- a player that is found has the account that was asked for
HasAccount : ℕ → Option Player → Type 0
HasAccount a none = Unit
HasAccount a (some q) = q.account ≡ a

by_account-HasAccount : (a : ℕ) (ps : List Player) → HasAccount a (by_account a ps)
unfolding HasAccount
by_account-HasAccount a [] = tt
by_account-HasAccount a (q ∷ ps) =
    let later = by_account-HasAccount a ps in
    elim (Option-cases (by_account a ps)) [
      | inr (r, e) ↦ rw e (subst (HasAccount a) e later)
      | inl e ↦ elim (Bool-cases (q.account == a)) [
        | inl eq ↦ rw (e, eq) (ground arith)
        | inr ne ↦ rw (e, ne) tt
      ]
    ]

module _ {F : Type 0} (p : Spec) (j : ClaimKey) where
  pub store-IsSound :
      (s : Store F) (w : World F)
      → s.claims ≡ w.store.claims
      → IsSound p j w
      → IsSound p j (record w { store = s })
  store-IsSound s w same (o, d) =
      (IsOrderly-same p j w (record w { store = s }) refl (ap (λ t. find j t) same) o, rw same d)

  module _ (fl : Floats F) (hash : Spec → Text) (g : Game F) (now : ℕ) where
    backfill_for-IsFine :
        (e : Definition F) (a : ℕ) (o : Option Player) (w : World F)
        → IsReward p j e
        → find (key_of e a) w.store.claims ≡ none
        → HasAccount a o
        → IsSound p j w
        → IsFine p j (Tick.apply_for fl hash g now e o false e.award_past w)
    unfolding HasAccount
    backfill_for-IsFine e a none w own free same h = h
    backfill_for-IsFine e a (some q) w own free same h =
        apply-IsSound p j hash g e q now false e.award_past w own
          (inr (subst (λ i. find (key_of e i) w.store.claims ≡ none) (sym same) free)) h

    backfill_accounts-IsFine :
        (e : Definition F) (ps : List Player) (as' : List ℕ) (w : World F)
        → IsReward p j e
        → IsSound p j w
        → IsFine p j (Tick.backfill_accounts fl hash g now e ps as' w)
    unfolding Tick.backfill_accounts
    backfill_accounts-IsFine e ps [] w own h = h
    backfill_accounts-IsFine e ps (a ∷ as') w own h =
        let step : IsFine p j (Tick.backfill_step fl hash g now e ps a w) =
          elim (Option-cases (find (key_of e a) w.store.claims)) [
            | inl free ↦ rw free (
                backfill_for-IsFine e a (by_account a ps) w own free (by_account-HasAccount a ps) h)
            | inr (c, there) ↦ rw there h
          ] in
        and_then-IsFine p j (Tick.backfill_step fl hash g now e ps a w) _ step
          (λ v k. backfill_accounts-IsFine e ps as' v own k)

    backfill_read-IsFine :
        (e : Definition F) (ps : List Player) (o : Option (List ℕ)) (w : World F)
        → IsReward p j e
        → IsSound p j w
        → IsFine p j (Tick.backfill_read fl hash g now e ps o w)
    backfill_read-IsFine e ps none w own h = h
    backfill_read-IsFine e ps (some as') w own h = backfill_accounts-IsFine e ps as' w own h

    backfill-IsFine :
        (ps : List Player) (es : List (Definition F)) (w : World F)
        → All (IsReward p j) es
        → IsSound p j w
        → IsFine p j (Tick.backfill fl hash g now ps es w)
    unfolding Tick.backfill
    backfill-IsFine ps [] w own h = h
    backfill-IsFine ps (e ∷ es) w (own, rest) h =
        and_then-IsFine p j _ _
          (if-IsFine p j e.enabled _ (ok w) (backfill_read-IsFine e ps _ w own h) h)
          (λ v k. backfill-IsFine ps es v rest k)

    evaluate_event-IsFine :
        (e : Definition F) (ps : List Player) (w : World F)
        → IsReward p j e
        → IsSound p j w
        → IsFine p j (Tick.evaluate_event fl hash g now e ps w)
    unfolding Tick.evaluate_event
    evaluate_event-IsFine e ps w own h = evaluate_kind-IsFine p j fl hash g now e e.kind ps w own h

    module _ (jitter : ℕ → ℕ → ℕ) where
      evaluate_all-IsFine :
          (ps : List Player) (es : List (Definition F)) (w : World F)
          → All (IsReward p j) es
          → IsSound p j w
          → IsFine p j (Tick.evaluate_all fl hash g now jitter ps es w)
      unfolding Tick.evaluate_all
      evaluate_all-IsFine ps [] w own h = h
      evaluate_all-IsFine ps (e ∷ es) w (own, rest) h =
          and_then-IsFine p j (Tick.evaluate_event fl hash g now e ps w) _
            (evaluate_event-IsFine e ps w own h)
            (λ v k.
              evaluate_all-IsFine ps es (Tick.schedule fl hash g now jitter e v) rest
                (store-IsSound _ v refl k))

      due_events-IsReward :
          (s : Store F) (es : List (Definition F))
          → All (IsReward p j) es
          → All (IsReward p j) (Tick.due_events fl hash g now jitter s es)
      due_events-IsReward s [] own = tt
      due_events-IsReward s (e ∷ es) (own, rest) =
          elim (Bool-cases (Tick.is_event_due fl hash g now jitter s e)) [
            | inl due ↦ rw due (own, due_events-IsReward s es rest)
            | inr later ↦ rw later (due_events-IsReward s es rest)
          ]

      with_players-IsFine :
          (boot : Bool) (es due : List (Definition F)) (o : Option (List Player)) (w : World F)
          → All (IsReward p j) es
          → All (IsReward p j) due
          → IsSound p j w
          → IsFine p j (Tick.with_players fl hash g now jitter boot es due o w)
      with_players-IsFine boot es due none w own own_due h = h
      with_players-IsFine boot es due (some ps) w own own_due h =
          and_then-IsFine p j (if boot then Tick.backfill fl hash g now ps es w else ok w) _
            (if-IsFine p j boot _ (ok w) (backfill-IsFine ps es w own h) h)
            (λ v k.
              and_then-IsFine p j (Tick.evaluate_all fl hash g now jitter ps due v) _
                (evaluate_all-IsFine ps due v own_due k)
                (λ u i. retries-IsFine p j fl hash g now es u own i))

      pub tick-IsFine :
          (boot : Bool) (w : World F)
          → All (IsReward p j) w.store.events
          → IsSound p j w
          → IsFine p j (Tick.tick fl hash g now jitter boot w)
      unfolding Tick.tick
      tick-IsFine boot w own h =
          with_players-IsFine boot w.store.events _ _ w own
            (due_events-IsReward w.store w.store.events own) h
