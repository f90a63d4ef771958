-- ===== src/Events/Ticks.antt =====
-- Every part of a tick keeps every claim orderly.
use pelican_egg_dune_awakeni.Base.{
  ℕ, ◌≡◌, ◌⊎◌, inl, inr, refl, sym, subst, Bool, true, false, not, ◌&&◌, List, [], ◌∷◌, Option,
  none, some, Text, Bool-cases, is_empty, if◌then◌else◌, arith,
}
use pelican_egg_dune_awakeni.Base.Table.{find}
use pelican_egg_dune_awakeni.Events.Engine.{
  Floats, Position, World, Game, Player, Run, and_then, lookup, by_account, over_row, key_of,
  apply_outcome, stands,
}
use pelican_egg_dune_awakeni.Events.Orderly.{IsOrderly, IsOrderly-same}
use pelican_egg_dune_awakeni.Events.Away.{apply_ne}
use pelican_egg_dune_awakeni.Events.Outcome.{apply_self}
use pelican_egg_dune_awakeni.Events.Rewards.{Spec}
use pelican_egg_dune_awakeni.Events.Store.{
  ClaimKey, ClaimKey_Eq, same_claim, same_claim_iff, Zone, Kind, zone_race, level_milestone,
  tag_milestone, Definition,
}
use pelican_egg_dune_awakeni.Events.Rows.{HasDistinct, apply_outcome-HasDistinct}
use pelican_egg_dune_awakeni.Events.Tick

module _ {F : Type 0} (p : Spec) (j : ClaimKey) where
  -- an event with the claim's id and version has the reward `p`
  abbrev pub IsReward : Definition F → Type 0
  IsReward e = (same_claim (key_of e j.account) j ≡ false) ⊎ (e.reward ≡ p)

  -- orderly, in a table whose keys are distinct
  abbrev pub IsSound : World F → Type 0
  IsSound w = IsOrderly p j w × HasDistinct w

  pub apply-IsSound :
      (hash : Spec → Text) (g : Game F) (e : Definition F) (player : Player) (now : ℕ)
      (announce grant : Bool) (w : World F)
      → IsReward e
      → (grant ≡ true) ⊎ (find (key_of e player.account) w.store.claims ≡ none)
      → IsSound w
      → IsSound (apply_outcome hash g e player now announce grant w)
  apply-IsSound hash g e player now announce grant w own may (o, d) =
      let v = apply_outcome hash g e player now announce grant w in
      let key = key_of e player.account in
      (
        elim (Bool-cases (same_claim key j)) [
          | inr ne ↦
              let (t, c) = apply_ne hash g e player now announce grant w j ne in
              IsOrderly-same p j w v t c o
          | inl eq ↦
              let same : key ≡ j = (same_claim_iff key j).0 eq in
              elim own [
                | inl other ↦ ground arith
                | inr reward ↦
                    subst (λ q. IsOrderly q j v) reward
                      (subst (λ k. IsOrderly e.reward k v) same
                        (apply_self hash g e player now announce grant w may (
                          subst (λ k. IsOrderly e.reward k w) (sym same)
                            (subst (λ q. IsOrderly q j w) (sym reward) o))))
              ]
        ],
        apply_outcome-HasDistinct hash g e player now announce grant w d,
      )

  abbrev pub IsFine : Run F → Type 0
  IsFine r = IsSound r.world

  pub if-IsFine : (b : Bool) (r s : Run F) → IsFine r → IsFine s → IsFine (if b then r else s)
  if-IsFine true r s h k = h
  if-IsFine false r s h k = k

  pub and_then-IsFine_at :
      (r : Run F) (k : World F → Run F) → IsFine r → IsFine (k r.world) → IsFine (and_then r k)
  unfolding and_then
  and_then-IsFine_at r k h f = elim (Bool-cases r.fine) [ inl e ↦ rw e f | inr e ↦ rw e h ]

  pub and_then-IsFine :
      (r : Run F) (k : World F → Run F)
      → IsFine r
      → ((v : World F) → IsSound v → IsFine (k v))
      → IsFine (and_then r k)
  and_then-IsFine r k h f = and_then-IsFine_at r k h (f r.world h)

  module _ (fl : Floats F) (hash : Spec → Text) (g : Game F) (now : ℕ) where
    pub apply_for-IsFine :
        (e : Definition F) (o : Option Player) (announce : Bool) (w : World F)
        → IsReward e
        → IsSound w
        → IsFine (Tick.apply_for fl hash g now e o announce true w)
    apply_for-IsFine e none announce w own h = h
    apply_for-IsFine e (some q) announce w own h =
        apply-IsSound hash g e q now announce true w own (inl refl) h

    race-IsFine :
        (e : Definition F) (zone : Zone F) (ps : List Player) (places : List (ℕ × Position F))
        (as' : List ℕ) (w : World F)
        → IsReward e
        → IsSound w
        → IsFine (Tick.race fl hash g now e zone ps places as' w)
    unfolding Tick.race
    race-IsFine e zone ps places [] w own h = h
    race-IsFine e zone ps places (a ∷ as') w own h =
        elim (Bool-cases
          (stands fl zone (lookup a places) && not (over_row (find (key_of e a) w.store.claims)))) [
            | inl first ↦ rw first (apply_for-IsFine e (by_account a ps) true w own h)
            | inr later ↦ rw later (race-IsFine e zone ps places as' w own h)
          ]

    milestones-IsFine :
        (e : Definition F) (ps : List Player) (as' : List ℕ) (w : World F)
        → IsReward e
        → IsSound w
        → IsFine (Tick.milestones fl hash g now e ps as' w)
    unfolding Tick.milestones
    milestones-IsFine e ps [] w own h = h
    milestones-IsFine e ps (a ∷ as') w own h =
        let step : IsFine (Tick.milestone_step fl hash g now e ps a w) =
          elim (Bool-cases (over_row (find (key_of e a) w.store.claims))) [
            | inl over ↦ rw over h
            | inr under ↦ rw under (apply_for-IsFine e (by_account a ps) true w own h)
          ] in
        and_then-IsFine (Tick.milestone_step fl hash g now e ps a w) _ step
          (λ v k. milestones-IsFine e ps as' v own k)

    milestones_read-IsFine :
        (e : Definition F) (ps : List Player) (o : Option (List ℕ)) (w : World F)
        → IsReward e
        → IsSound w
        → IsFine (Tick.milestones_read fl hash g now e ps o w)
    milestones_read-IsFine e ps none w own h = h
    milestones_read-IsFine e ps (some as') w own h = milestones-IsFine e ps as' w own h

    race_read-IsFine :
        (e : Definition F) (zone : Zone F) (ps : List Player) (o : Option (List (ℕ × Position F)))
        (w : World F)
        → IsReward e
        → IsSound w
        → IsFine (Tick.race_read fl hash g now e zone ps o w)
    race_read-IsFine e zone ps none w own h = h
    race_read-IsFine e zone ps (some places) w own h =
        race-IsFine e zone ps places zone.participants w own h

    pub evaluate_kind-IsFine :
        (e : Definition F) (kind : Kind F) (ps : List Player) (w : World F)
        → IsReward e
        → IsSound w
        → IsFine (Tick.evaluate_kind fl hash g now e kind ps w)
    evaluate_kind-IsFine e (zone_race z) ps w own h =
        elim (Bool-cases (is_empty (Tick.present ps z.participants))) [
          | inl nobody ↦ rw nobody h
          | inr there ↦ rw there (race_read-IsFine e z ps _ w own h)
        ]
    evaluate_kind-IsFine e (level_milestone n) ps w own h = milestones_read-IsFine e ps _ w own h
    evaluate_kind-IsFine e (tag_milestone t) ps w own h = milestones_read-IsFine e ps _ w own h
