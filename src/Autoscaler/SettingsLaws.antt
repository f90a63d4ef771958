-- ===== src/Autoscaler/SettingsLaws.antt =====
-- What `validate_config` accepts has the shape that the decisions rely on.
use pelican_egg_dune_awakeni.Base.{
  ℕ, ltb, ◌||◌, ◌≤◌, ◌≡◌, inl, inr, refl, subst, Bool, true, false, List, [], ◌∷◌, ◌++◌, Option,
  none, some, Text, codes, All, All-append, Bool-cases, arith,
}
use pelican_egg_dune_awakeni.Base.Int.{ℤ, pos, negsuc}
use pelican_egg_dune_awakeni.Base.Json.{
  Json, null, boolean, integer, real, string, array, object, Items, nil, cons, Fields, get, get_or,
  int_of, coerce_bool,
}
use pelican_egg_dune_awakeni.Autoscaler.Decide.{Limits, scale_replicas_max}
use pelican_egg_dune_awakeni.Autoscaler.Pool.{PoolLimits}
use pelican_egg_dune_awakeni.Autoscaler.Settings.{
  Scalable, deep_desert, arrakeen, harko, same_place, MapEntry, Settings, at_least, int_field,
  ranged, placed, validate_map, add_entry, has_place, validate_items, entry_at, in_order, ordered,
  maps_of, pool_of, validate_deep_desert, desert_of, pool_fields, with_enabled, limits_of,
  settings_of, validate_config, webhook_of, desert_fields, min_scan_interval_secs,
  min_wake_poll_secs,
}

abbrev pub InRange : MapEntry → Type 0
InRange e = (e.min_replicas ≤ e.max_replicas) × ((1 ≤ e.max_replicas) × (e.max_replicas ≤ 4))

-- what is accepted
abbrev Accepted : {A : Type 0} → (A → Type 0) → Option A → Type 0
Accepted P none = Unit
Accepted P (some a) = P a

-- at most one entry for a place
data Slot (p : Scalable) : List MapEntry → Type 0 where
  vacant : Slot p []
  taken :
      (on : Bool) (lo hi : ℕ)
      → Slot p (record { place = p; enabled = on; min_replicas = lo; max_replicas = hi } ∷ [])

same_place-eq : (p q : Scalable) → same_place p q ≡ true → p ≡ q
same_place-eq deep_desert deep_desert h = refl
same_place-eq deep_desert arrakeen h = ground arith
same_place-eq deep_desert harko h = ground arith
same_place-eq arrakeen deep_desert h = ground arith
same_place-eq arrakeen arrakeen h = refl
same_place-eq arrakeen harko h = ground arith
same_place-eq harko deep_desert h = ground arith
same_place-eq harko arrakeen h = ground arith
same_place-eq harko harko h = refl

module _ (lower : ℕ → ℕ) where
  entry_at-Slot : (p : Scalable) (es : List MapEntry) → Slot p (entry_at lower p es)
  entry_at-Slot p [] = vacant
  entry_at-Slot p (e ∷ es) = elim (Bool-cases (same_place e.place p)) [
    | inl h ↦ rw h (
        subst (λ q. Slot q (e ∷ [])) (same_place-eq e.place p h)
          (taken e.enabled e.min_replicas e.max_replicas))
    | inr h ↦ rw h (entry_at-Slot p es)
  ]

  Slots-in_order :
      {a b c : List MapEntry}
      → Slot deep_desert a
      → Slot arrakeen b
      → Slot harko c
      → in_order lower (a ++ (b ++ c)) ≡ a ++ (b ++ c)
  Slots-in_order vacant vacant vacant = refl
  Slots-in_order vacant vacant (taken o l h) = refl
  Slots-in_order vacant (taken o l h) vacant = refl
  Slots-in_order vacant (taken o l h) (taken p m i) = refl
  Slots-in_order (taken o l h) vacant vacant = refl
  Slots-in_order (taken o l h) vacant (taken p m i) = refl
  Slots-in_order (taken o l h) (taken p m i) vacant = refl
  Slots-in_order (taken o l h) (taken p m i) (taken q n j) = refl

  entry_at-InRange :
      (p : Scalable) (es : List MapEntry) → All InRange es → All InRange (entry_at lower p es)
  entry_at-InRange p [] h = tt
  entry_at-InRange p (e ∷ es) (r, h) = elim (Bool-cases (same_place e.place p)) [
    | inl s ↦ rw s (r, tt)
    | inr s ↦ rw s (entry_at-InRange p es h)
  ]

  ranged-InRange :
      (p : Scalable) (on : Bool) (lo hi : Option ℤ) → Accepted InRange (ranged p on lo hi)
  ranged-InRange p on (some (pos lo)) (some (pos hi)) =
      elim (Bool-cases (ltb hi 1 || ltb scale_replicas_max hi)) [
        | inl out ↦ rw out tt
        | inr inside ↦ elim (Bool-cases (ltb hi lo)) [
          | inl above ↦ rw (inside, above) tt
          | inr below ↦ rw (inside, below) (ground arith)
        ]
      ]
  ranged-InRange p on (some (pos lo)) (some (negsuc hi)) = tt
  ranged-InRange p on (some (pos lo)) none = tt
  ranged-InRange p on (some (negsuc lo)) hi = tt
  ranged-InRange p on none hi = tt

  placed-InRange : (raw : Fields) (o : Option Scalable) → Accepted InRange (placed lower raw o)
  placed-InRange raw none = tt
  placed-InRange raw (some p) =
      ranged-InRange p (coerce_bool lower (get_or (boolean true) (get (codes "enabled") raw)))
        (int_of (get_or (integer (pos 1)) (get (codes "min_replicas") raw)))
        (int_of (get_or (integer (pos 2)) (get (codes "max_replicas") raw)))

  validate_map-InRange : (j : Json) → Accepted InRange (validate_map lower j)
  unfolding validate_map
  validate_map-InRange (object raw) = placed-InRange raw _
  validate_map-InRange null = tt
  validate_map-InRange (boolean b) = tt
  validate_map-InRange (integer n) = tt
  validate_map-InRange (real z) = tt
  validate_map-InRange (string t) = tt
  validate_map-InRange (array xs) = tt

  add_entry-InRange :
      (o : Option MapEntry) (r : Option (List MapEntry))
      → Accepted InRange o
      → Accepted (All InRange) r
      → Accepted (All InRange) (add_entry lower o r)
  add_entry-InRange none r h k = tt
  add_entry-InRange (some e) none h k = tt
  add_entry-InRange (some e) (some es) h k = elim (Bool-cases (has_place lower e.place es)) [
    | inl twice ↦ rw twice tt
    | inr once ↦ rw once (h, k)
  ]

  validate_items-InRange : (xs : Items) → Accepted (All InRange) (validate_items lower xs)
  unfolding validate_items
  validate_items-InRange nil = tt
  validate_items-InRange (cons x xs) =
      add_entry-InRange (validate_map lower x) (validate_items lower xs) (validate_map-InRange x)
        (validate_items-InRange xs)

  -- each place at most once and in order, within the limits
  abbrev pub InOrder : List MapEntry → Type 0
  InOrder es = All InRange es × (in_order lower es ≡ es)

  ordered-InOrder :
      (r : Option (List MapEntry)) → Accepted (All InRange) r → Accepted InOrder (ordered lower r)
  ordered-InOrder none h = tt
  ordered-InOrder (some es) h = (
    All-append InRange (entry_at lower deep_desert es) _ (entry_at-InRange deep_desert es h) (
        All-append InRange (entry_at lower arrakeen es) _ (entry_at-InRange arrakeen es h)
          (entry_at-InRange harko es h)),
    Slots-in_order (entry_at-Slot deep_desert es) (entry_at-Slot arrakeen es)
        (entry_at-Slot harko es),
  )

  maps_of-InOrder : (j : Json) → Accepted InOrder (maps_of lower j)
  maps_of-InOrder (array xs) = ordered-InOrder (validate_items lower xs) (validate_items-InRange xs)
  maps_of-InOrder null = (ground arith, refl)
  maps_of-InOrder (object raw) = tt
  maps_of-InOrder (boolean b) = tt
  maps_of-InOrder (integer n) = tt
  maps_of-InOrder (real z) = tt
  maps_of-InOrder (string t) = tt

at_least-Accepted : (n : ℕ) (o : Option ℤ) → Accepted (λ v. n ≤ v) (at_least n o)
at_least-Accepted n none = tt
at_least-Accepted n (some z) = omega arith

int_field-Accepted :
    (raw : Fields) (key : Text) (default n : ℕ)
    → Accepted (λ v. n ≤ v) (int_field raw key default n)
unfolding int_field
int_field-Accepted raw key default n =
    at_least-Accepted n (int_of (get_or (integer (pos default)) (get key raw)))

pub record IsPool (l : PoolLimits) : Type 0 where
  pub floor_le : l.min_dims ≤ l.max_dims
  pub ceiling_ge : 1 ≤ l.max_dims
  pub players_ge : 1 ≤ l.players_per_dim
  pub cooldown_ge : 300 ≤ l.demand_grace_secs

module _ (lower : ℕ → ℕ) where
  pool_of-IsPool :
      (lo hi players drain grace : Option ℕ)
      → Accepted (λ v. 1 ≤ v) hi
      → Accepted (λ v. 1 ≤ v) players
      → Accepted IsPool (pool_of lower lo hi players drain grace)
  pool_of-IsPool (some lo) (some hi) (some players) (some drain) (some grace) h k = record {
    floor_le = ground arith;
    ceiling_ge = h;
    players_ge = k;
    cooldown_ge = omega arith;
  }
  pool_of-IsPool none hi players drain grace h k = tt
  pool_of-IsPool (some lo) none players drain grace h k = tt
  pool_of-IsPool (some lo) (some hi) none drain grace h k = tt
  pool_of-IsPool (some lo) (some hi) (some players) none grace h k = tt
  pool_of-IsPool (some lo) (some hi) (some players) (some drain) none h k = tt

  abbrev IsDesert : Bool × PoolLimits → Type 0
  IsDesert d = IsPool d.1

  with_enabled-IsDesert :
      (on : Bool) (o : Option PoolLimits)
      → Accepted IsPool o
      → Accepted IsDesert (with_enabled lower on o)
  with_enabled-IsDesert on none h = tt
  with_enabled-IsDesert on (some l) h = h

  desert_of-IsDesert : (o : Option Fields) → Accepted IsDesert (desert_of lower o)
  desert_of-IsDesert none = tt
  desert_of-IsDesert (some raw) =
      with_enabled-IsDesert (coerce_bool lower (get_or (boolean false) (get (codes "enabled") raw)))
        (pool_fields lower raw)
        (pool_of-IsPool (int_field raw (codes "min_dims") 1 0)
          (int_field raw (codes "max_dims") 3 1) (int_field raw (codes "players_per_dim") 30 1)
          (int_field raw (codes "idle_drain_secs") 600 0)
          (int_field raw (codes "demand_grace_secs") 300 0)
          (int_field-Accepted raw (codes "max_dims") 3 1)
          (int_field-Accepted raw (codes "players_per_dim") 30 1))

  limits_of-Accepted :
      (idle grace players : Option ℕ)
      → Accepted (λ v. 1 ≤ v) players
      → Accepted (λ l. 1 ≤ l.players_per_instance) (limits_of lower idle grace players)
  limits_of-Accepted (some idle) (some grace) (some players) h = h
  limits_of-Accepted none grace players h = tt
  limits_of-Accepted (some idle) none players h = tt
  limits_of-Accepted (some idle) (some grace) none h = tt

  -- the shape that the decisions rely on
  pub record IsCanonical (s : Settings) : Type 0 where
    pub scan_ge : 30 ≤ s.scan_interval_secs
    pub wake_ge : 2 ≤ s.wake_poll_secs
    pub players_ge : 1 ≤ s.limits.players_per_instance
    pub pool_fits : IsPool s.pool
    pub maps_fit : InOrder lower s.maps

  settings_of-IsCanonical :
      (on : Bool) (scan wake : Option ℕ) (limits : Option Limits) (hook : Option Text)
      (dd : Option (Bool × PoolLimits)) (maps : Option (List MapEntry))
      → Accepted (λ v. 30 ≤ v) scan
      → Accepted (λ v. 2 ≤ v) wake
      → Accepted (λ l. 1 ≤ l.players_per_instance) limits
      → Accepted IsDesert dd
      → Accepted (InOrder lower) maps
      → Accepted IsCanonical (settings_of lower on scan wake limits hook dd maps)
  settings_of-IsCanonical on (some a) (some b) (some c) (some d) (some e) (some f) p q r s t =
      record { scan_ge = p; wake_ge = q; players_ge = r; pool_fits = s; maps_fit = t }
  settings_of-IsCanonical on none b c d e f p q r s t = tt
  settings_of-IsCanonical on (some a) none c d e f p q r s t = tt
  settings_of-IsCanonical on (some a) (some b) none d e f p q r s t = tt
  settings_of-IsCanonical on (some a) (some b) (some c) none e f p q r s t = tt
  settings_of-IsCanonical on (some a) (some b) (some c) (some d) none f p q r s t = tt
  settings_of-IsCanonical on (some a) (some b) (some c) (some d) (some e) none p q r s t = tt

  object-IsCanonical : (raw : Fields) → Accepted IsCanonical (validate_config lower (object raw))
  unfolding validate_config validate_deep_desert
  object-IsCanonical raw =
      settings_of-IsCanonical
        (coerce_bool lower (get_or (boolean false) (get (codes "enabled") raw)))
        (int_field raw (codes "scan_interval_secs") 30 min_scan_interval_secs)
        (int_field raw (codes "wake_poll_secs") 5 min_wake_poll_secs)
        (limits_of lower (int_field raw (codes "idle_drain_secs") 300 0)
          (int_field raw (codes "demand_grace_secs") 120 0)
          (int_field raw (codes "players_per_instance") 30 1))
        (webhook_of lower (get_or (string []) (get (codes "webhook_url") raw)))
        (validate_deep_desert lower (get_or null (get (codes "deep_desert") raw)))
        (maps_of lower (get_or null (get (codes "maps") raw)))
        (int_field-Accepted raw (codes "scan_interval_secs") 30 30)
        (int_field-Accepted raw (codes "wake_poll_secs") 5 2)
        (limits_of-Accepted (int_field raw (codes "idle_drain_secs") 300 0)
          (int_field raw (codes "demand_grace_secs") 120 0)
          (int_field raw (codes "players_per_instance") 30 1)
          (int_field-Accepted raw (codes "players_per_instance") 30 1))
        (desert_of-IsDesert (desert_fields lower (get_or null (get (codes "deep_desert") raw))))
        (maps_of-InOrder lower (get_or null (get (codes "maps") raw)))

  -- Settings that are accepted have a scan interval of at least 30 seconds, a wake poll of at
  -- least 2, and at least one player per instance; a pool of dimensions with a floor that is at
  -- most its ceiling, a ceiling and players per dimension of at least 1, and a cooldown of at
  -- least 300 seconds; and maps in the order of SCALABLE_MAPS, none twice, with 0 <= min <= max
  -- and 1 <= max <= 4.
  pub validate_config-IsCanonical :
      (raw : Json) {s : Settings} → validate_config lower raw ≡ some s → IsCanonical s
  unfolding validate_config
  validate_config-IsCanonical (object raw) e =
      subst (Accepted IsCanonical) e (object-IsCanonical raw)
  validate_config-IsCanonical null e = cc
  validate_config-IsCanonical (boolean b) e = cc
  validate_config-IsCanonical (integer n) e = cc
  validate_config-IsCanonical (real z) e = cc
  validate_config-IsCanonical (string t) e = cc
  validate_config-IsCanonical (array xs) e = cc
