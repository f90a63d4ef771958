-- ===== src/Progression/LevelLaws.antt =====
-- The search finds the highest level reached, and what the outcomes built on it satisfy.
use pelican_egg_dune_awakeni.Base.{
  ℕ, zero, suc, ◌+◌, ◌-◌, ◌/◌, ◌≤◌, ◌<◌, ◌≡◌, ◌↔◌, ◌⊎◌, inl, inr, refl, false, List, some, leb, ltb,
  ◌==◌, length, Bool-cases, arith,
}
use pelican_egg_dune_awakeni.Base.Int.{pos}
use pelican_egg_dune_awakeni.Progression.Tables.{
  LevelTable, get_elem?, Spread, get_elem?-length, length-get_elem?, get_elem?-Spread,
}
use pelican_egg_dune_awakeni.Progression.Level.{find_level, xp_to_level}

abbrev pub Reached : List ℕ → ℕ → ℕ → Type 0
Reached table xp l = (v : ℕ) × (get_elem? table l ≡ some v) × (v ≤ xp)

abbrev pub Beyond : List ℕ → ℕ → ℕ → Type 0
Beyond table xp l = (v : ℕ) × (get_elem? table l ≡ some v) × (xp < v)

-- between the bounds; reached, and with the next one beyond, unless it is a bound itself
abbrev pub IsFound : List ℕ → ℕ → ℕ → ℕ → ℕ → Type 0
IsFound table xp lo hi l =
    (lo ≤ l) × (l ≤ hi) × ((l ≡ lo) ⊎ Reached table xp l) × ((l ≡ hi) ⊎ Beyond table xp (suc l))

IsFound-up :
    (table : List ℕ) (xp lo mid hi l : ℕ)
    → lo ≤ mid
    → Reached table xp mid
    → IsFound table xp mid hi l
    → IsFound table xp lo hi l
IsFound-up table xp lo mid hi l le r (a, b, c, d) =
    (omega arith, b, elim c [ inl e ↦ inr (rw e r) | inr r' ↦ inr r' ], d)

IsFound-down :
    (table : List ℕ) (xp lo mid hi l : ℕ)
    → lo < mid
    → mid ≤ hi
    → Beyond table xp mid
    → IsFound table xp lo (mid - 1) l
    → IsFound table xp lo hi l
IsFound-down table xp lo mid hi l lt le r (a, b, c, d) = (
  a,
  omega arith,
  c,
  elim d [ inl e ↦ let m : suc l ≡ mid = omega arith in inr (rw m r) | inr r' ↦ inr r' ],
)

find_level-IsFound :
    (fuel : ℕ) (table : List ℕ) (xp lo hi : ℕ)
    → hi < length table
    → lo ≤ hi
    → hi - lo < fuel
    → (l : ℕ) × (find_level fuel table xp lo hi ≡ some l) × IsFound table xp lo hi l
unfolding find_level
find_level-IsFound zero table xp lo hi h le f = absurd (omega arith)
find_level-IsFound (suc fuel) table xp lo hi h le f = elim (Bool-cases (ltb lo hi)) [
  | inr e ↦ rw e (lo, refl, (omega arith, le, inl refl, inl (ground arith)))
  | inl e ↦
      let lt : lo < hi = ground arith in
      let (v, at) = get_elem?-length table ((lo + hi + 1) / 2) (omega arith) in
      elim (Bool-cases (leb v xp)) [
        | inl g ↦
            let (l, found, p) =
              find_level-IsFound fuel table xp ((lo + hi + 1) / 2) hi h (omega arith)
                (omega arith) in
            simp (e, at, g)
              (
                l,
                found,
                IsFound-up table xp lo ((lo + hi + 1) / 2) hi l (omega arith) (v, at, ground arith)
                    p,
              )
        | inr g ↦
            let (l, found, p) =
              find_level-IsFound fuel table xp lo ((lo + hi + 1) / 2 - 1) (omega arith)
                (omega arith) (omega arith) in
            simp (e, at, g)
              (
                l,
                found,
                IsFound-down table xp lo ((lo + hi + 1) / 2) hi l (omega arith) (omega arith)
                    (v, at, ground arith) p,
              )
      ]
]

-- the table has an entry for each level, none smaller than the ones before
abbrev pub IsTable : LevelTable → Type 0
IsTable t =
    (length t.cumulative_xp ≡ t.max_level + 1) × (1 ≤ t.max_level) × Spread 0 t.cumulative_xp

-- For positive XP and a table with an entry for each level, the binary search ends within its
-- fuel and its table, at a level between 1 and the maximum: level 1 or one whose entry is
-- reached, and the maximum or one with the next entry not reached.
pub xp_to_level-IsFound :
    (t : LevelTable) (xp : ℕ)
    → IsTable t
    → 0 < xp
    → (l : ℕ) × (xp_to_level t (pos xp) ≡ some l) × IsFound t.cumulative_xp xp 1 t.max_level l
unfolding xp_to_level
xp_to_level-IsFound t xp (len, le, s) h =
    let e : (xp == 0) ≡ false = ground arith in
    let (l, found, p) =
      find_level-IsFound (suc t.max_level) t.cumulative_xp xp 1 t.max_level (omega arith) le
        (omega arith) in
    simp e (l, found, p)

Reached-le :
    (table : List ℕ) (xp j l v : ℕ)
    → Spread 0 table
    → get_elem? table j ≡ some v
    → j ≤ l
    → Reached table xp l
    → v ≤ xp
Reached-le table xp j l v s at le (w, at', r) = elim (Bool-cases (j == l)) [
  | inl e ↦ let same : j ≡ l = ground arith in ground arith
  | inr e ↦
      let d = get_elem?-Spread 0 table j l {v = v} {w = w} s (ground arith) at at' in omega arith
]

Beyond-le :
    (table : List ℕ) (xp j l v : ℕ)
    → Spread 0 table
    → get_elem? table j ≡ some v
    → l < j
    → Beyond table xp (suc l)
    → xp < v
Beyond-le table xp j l v s at le (w, at', r) = elim (Bool-cases (j == suc l)) [
  | inl e ↦ let same : j ≡ suc l = ground arith in ground arith
  | inr e ↦
      let d = get_elem?-Spread 0 table (suc l) j {v = w} {w = v} s (ground arith) at' at in
      omega arith
]

-- For positive XP, a level above 1 is at most the level found exactly if the XP reaches its entry
-- of the table, which never decreases.
pub xp_to_level_iff :
    (t : LevelTable) (xp l j v : ℕ)
    → IsTable t
    → 0 < xp
    → xp_to_level t (pos xp) ≡ some l
    → 1 < j
    → get_elem? t.cumulative_xp j ≡ some v
    → (j ≤ l) ↔ (v ≤ xp)
xp_to_level_iff t xp l j v (len, top, s) h e lt at =
    let (l', found, (a, b, c, d)) = xp_to_level-IsFound t xp (len, top, s) h in
    let same : l' ≡ l = cc in
    let bound = length-get_elem? t.cumulative_xp j {v = v} at in
    (
      λ le. elim c [
        | inl one ↦ absurd (omega arith)
        | inr r ↦ Reached-le t.cumulative_xp xp j l' v s at (omega arith) r
      ],
      λ le. elim (Bool-cases (leb j l)) [
        | inl below ↦ ground arith
        | inr above ↦ elim d [
          | inl last ↦ absurd (ground arith)
          | inr r ↦
              let w = Beyond-le t.cumulative_xp xp j l' v s at (ground arith) r in
              absurd (omega arith)
        ]
      ],
    )
