-- ===== src/Progression/Outcomes.antt =====
-- Awards, summaries and keystones.
use pelican_egg_dune_awakeni.Base.{
  ℕ, zero, suc, ◌+◌, ◌-◌, ◌≤◌, ◌<◌, ◌≡◌, ◌≢◌, ◌⊎◌, inl, inr, refl, true, false, List, [], ◌∷◌, some,
  leb, ltb, ◌==◌, All, Bool-cases, arith,
}
use pelican_egg_dune_awakeni.Base.Int.{ℤ, pos, negsuc, ◌+ℤ◌, ◌-ℤ◌, pos_part, neg_part}
use pelican_egg_dune_awakeni.Progression.Tables.{LevelTable, get_elem?}
use pelican_egg_dune_awakeni.Progression.Level.{
  xp_to_level, xp_to_next, clamp, Award, award_char_xp_outcome, Summary, char_xp_summary,
  keystone_sp_bonus, all_keystone_ids,
}
use pelican_egg_dune_awakeni.Progression.LevelLaws.{IsTable, xp_to_level-IsFound}

xp_to_level-defined : (t : LevelTable) (xp : ℤ) → IsTable t → (l : ℕ) × (xp_to_level t xp ≡ some l)
unfolding xp_to_level
xp_to_level-defined t (negsuc n) h = (0, refl)
xp_to_level-defined t (pos zero) h = (0, refl)
xp_to_level-defined t (pos (suc n)) h =
    let (l, e, p) = xp_to_level-IsFound t (suc n) h (omega arith) in (l, e)

-- what `raw` comes to between 0 and the cap
abbrev pub IsClamped : ℕ → ℤ → ℕ → Type 0
IsClamped cap raw n =
    (n ≤ cap)
    × ((pos n ≡ raw) ⊎ ((n ≡ cap) × (cap < pos_part raw)) ⊎ ((n ≡ 0) × (0 < neg_part raw)))

pub clamp-IsClamped : (cap : ℕ) (raw : ℤ) → IsClamped cap raw (clamp cap raw)
clamp-IsClamped cap (pos n) = elim (Bool-cases (ltb cap n)) [
  | inl e ↦ rw e (omega arith, inr (inl (refl, ground arith)))
  | inr e ↦ rw e (ground arith, inl refl)
]
clamp-IsClamped cap (negsuc n) = (omega arith, inr (inr (refl, omega arith)))

-- the level is that of the new XP, and all skill points but the starter job's are spent or not
abbrev pub IsAwarded : LevelTable → ℤ → ℕ → ℕ → Award → Type 0
IsAwarded t raw spent_sp bonus a =
    IsClamped t.max_char_xp raw a.new_xp
    × (xp_to_level t (pos a.new_xp) ≡ some a.new_level)
    × (a.new_total_sp ≡ a.new_level + bonus)
    × ((a.new_unspent_sp + spent_sp + 1 ≡ a.new_total_sp)
        ⊎ ((a.new_unspent_sp ≡ 0) × (a.new_total_sp ≤ spent_sp + 1)))

spent_or_not :
    (total spent : ℕ)
    → ((total - spent - 1) + spent + 1 ≡ total) ⊎ ((total - spent - 1 ≡ 0) × (total ≤ spent + 1))
spent_or_not total spent = elim (Bool-cases (leb (spent + 1) total)) [
  | inl e ↦ inl (ground arith)
  | inr e ↦ inr (ground arith)
]

-- With such a table, an award has an outcome: the sum of XP brought between 0 and the maximum,
-- its level, the level and the keystone bonus as skill points, and as unspent what the spent ones
-- and the starter job leave, or 0.
award_char_xp_outcome-IsAwarded :
    (t : LevelTable) (current : ℤ) (spent_sp bonus : ℕ) (amount : ℤ)
    → IsTable t
    → (a : Award) × (award_char_xp_outcome t current spent_sp bonus amount ≡ some a)
      × IsAwarded t (current +ℤ amount) spent_sp bonus a
unfolding award_char_xp_outcome
award_char_xp_outcome-IsAwarded t current spent_sp bonus amount h =
    let (l, e) = xp_to_level-defined t (pos (clamp t.max_char_xp (current +ℤ amount))) h in
    simp e (
      _,
      refl,
      (
        clamp-IsClamped t.max_char_xp (current +ℤ amount),
        e,
        refl,
        spent_or_not (l + bonus) spent_sp,
      ),
    )

-- no id is listed twice
abbrev pub IsDict : List (ℕ × ℕ) → Type 0
IsDict [] = Unit
IsDict (k ∷ ks) = All (λ k'. k.0 ≢ k'.0) ks × IsDict ks

abbrev pub sum_sp : List (ℕ × ℕ) → ℕ
sum_sp [] = 0
sum_sp (k ∷ ks) = k.1 + sum_sp ks

keystone_sp_bonus-skip :
    (i sp : ℕ) (dict ks : List (ℕ × ℕ))
    → All (λ k'. i ≢ k'.0) ks
    → keystone_sp_bonus ((i, sp) ∷ dict) (all_keystone_ids ks)
      ≡ keystone_sp_bonus dict (all_keystone_ids ks)
unfolding keystone_sp_bonus
keystone_sp_bonus-skip i sp dict [] h = refl
keystone_sp_bonus-skip i sp dict ((j, sp') ∷ ks) (ne, h) =
    let differ : (i == j) ≡ false = ground arith in
    rw (differ, keystone_sp_bonus-skip i sp dict ks h) refl

-- If no keystone is listed twice, the bonus of all keystones is the sum of their skill points.
keystone_sp_bonus-all :
    (dict : List (ℕ × ℕ))
    → IsDict dict
    → keystone_sp_bonus dict (all_keystone_ids dict) ≡ sum_sp dict
unfolding keystone_sp_bonus
keystone_sp_bonus-all [] h = refl
keystone_sp_bonus-all ((i, sp) ∷ ks) (ne, h) =
    let same : (i == i) ≡ true = ground arith in
    rw (same, keystone_sp_bonus-skip i sp ks ks ne, keystone_sp_bonus-all ks h) refl

pos_part-diff : (w xp : ℕ) → xp < w → pos_part (pos w -ℤ pos xp) ≡ w - xp
unfolding ◌-ℤ◌
pos_part-diff w xp h = ground arith

-- With such a table, the summary of positive XP exists, and below the maximum level the XP and
-- the XP that remain, which are positive, add up to the entry of the next level.
char_xp_summary-next :
    (t : LevelTable) (xp : ℕ)
    → IsTable t
    → 0 < xp
    → (s : Summary) × (char_xp_summary t (pos xp) ≡ some s)
      × ((s.level ≡ t.max_level) ⊎ ((0 < s.xp_to_next) × (xp + s.xp_to_next ≡ s.next_level_at)))
unfolding char_xp_summary xp_to_next
char_xp_summary-next t xp h lt =
    let (l, e, (lo, hi, c, d)) = xp_to_level-IsFound t xp h lt in
    elim d [
      | inl last ↦
          let top : leb t.max_level l ≡ true = ground arith in
          let end : ltb l t.max_level ≡ false = ground arith in
          simp (e, top, end) (_, refl, inl last)
      | inr (w, at, more) ↦ elim (Bool-cases (leb t.max_level l)) [
        | inl top ↦
            let end : ltb l t.max_level ≡ false = ground arith in
            simp (e, top, end) (_, refl, inl (ground arith))
        | inr top ↦
            let go : ltb l t.max_level ≡ true = ground arith in
            let at' : get_elem? t.cumulative_xp (suc l) ≡ some w = at in
            simp (e, top, go, at')
              (
                _,
                refl,
                inr (
                  omega (arith, pos_part-diff w xp more),
                  omega (arith, pos_part-diff w xp more),
                ),
              )
      ]
    ]
