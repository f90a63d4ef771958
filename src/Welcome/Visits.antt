-- ===== src/Welcome/Visits.antt =====
-- What one visit of an account does.
use pelican_egg_dune_awakeni.Base.{
  ◌≡◌, refl, ◌∙◌, ap, true, false, ◌||◌, Bool-cases, ◌⊎◌, inl, inr, List, [], ◌∷◌, Option, none,
  some, Text, strip, is_empty, is_some, arith,
}
use pelican_egg_dune_awakeni.Base.Table.{
  upsert, find-upsert_self, find-upsert_ne, same_refl, same_false,
}
use pelican_egg_dune_awakeni.Welcome.Package.{Item, Account}
use pelican_egg_dune_awakeni.Welcome.Scan.{
  Script, World, Visit, ignored, skip, grant, fail, both, give_item, grant_account, settle,
  announce, on_ledger, visit, key_of,
}
use pelican_egg_dune_awakeni.Welcome.Served.{asked, each}
use pelican_egg_dune_awakeni.Welcome.Store.{
  Key, same_key, same_key_iff, Key_Eq, Row, Ledger, granted, failed, granted_exists, record_granted,
  again,
}

-- runs for a key, after others
pub data Adds (k : Key) : List (Key × Item) → List (Key × Item) → Type 0 where
  nothing : {es : List (Key × Item)} → Adds k es es
  one_more : {es fs : List (Key × Item)} (it : Item) → Adds k fs es → Adds k ((k, it) ∷ fs) es

Adds-trans : (k : Key) {es fs gs : List (Key × Item)} → Adds k gs fs → Adds k fs es → Adds k gs es
Adds-trans k nothing b = b
Adds-trans k (one_more it a) b = one_more it (Adds-trans k a b)

module _ (script : Script) (fls : Text) (k : Key) where
  give_item-Adds :
      (it : Item) (o : Option Text) (w : World)
      → Adds k (asked (give_item script fls k it o w).1.trace) (asked w.trace)
  give_item-Adds it none w = nothing
  give_item-Adds it (some t) w = one_more it nothing

  pub grant_account-Adds :
      (its : List Item) (w : World)
      → Adds k (asked (grant_account script fls k its w).1.trace) (asked w.trace)
  unfolding grant_account
  grant_account-Adds [] w = nothing
  grant_account-Adds (it ∷ its) w =
      let first = give_item script fls k it it.template w in
      let now = give_item-Adds it it.template w in
      elim (Bool-cases (is_some first.0)) [
        | inl t ↦ rw t (Adds-trans k (grant_account-Adds its first.1) now)
        | inr t ↦ rw t now
      ]

  give_item-ledger :
      (it : Item) (o : Option Text) (w : World)
      → (give_item script fls k it o w).1.ledger ≡ w.ledger
  give_item-ledger it none w = refl
  give_item-ledger it (some t) w = refl

  pub grant_account-ledger :
      (its : List Item) (w : World) → (grant_account script fls k its w).1.ledger ≡ w.ledger
  unfolding grant_account
  grant_account-ledger [] w = refl
  grant_account-ledger (it ∷ its) w =
      let first = give_item script fls k it it.template w in
      let now = give_item-ledger it it.template w in
      elim (Bool-cases (is_some first.0)) [
        | inl t ↦ rw t (grant_account-ledger its first.1 ∙ now)
        | inr t ↦ rw t now
      ]

  -- a run that raised nothing was asked for
  give_item-asked :
      (it : Item) (o : Option Text) (w : World) {rs : List Text}
      → (give_item script fls k it o w).0 ≡ some rs
      → asked (give_item script fls k it o w).1.trace ≡ (k, it) ∷ asked w.trace
  give_item-asked it none w h = cc
  give_item-asked it (some t) w h = refl

  both-some :
      (a b : Option (List Text)) {rs : List Text}
      → both a b ≡ some rs
      → ((x : List Text) × (a ≡ some x)) × ((y : List Text) × (b ≡ some y))
  both-some none b h = cc
  both-some (some x) none h = cc
  both-some (some x) (some y) h = ((x, refl), (y, refl))

  -- a delivery that raised nothing asked for every item, in order
  pub grant_account-asked :
      (its : List Item) (w : World) {rs : List Text}
      → (grant_account script fls k its w).0 ≡ some rs
      → asked (grant_account script fls k its w).1.trace ≡ each k its (asked w.trace)
  unfolding grant_account
  grant_account-asked [] w h = refl
  grant_account-asked (it ∷ its) w h =
      let first = give_item script fls k it it.template w in
      let ((x, p), (y, q)) = both-some first.0 (grant_account script fls k its first.1).0 h in
      rw (p)
        (grant_account-asked its first.1 q ∙ ap (each k its) (give_item-asked it it.template w p))

-- a new row is found, and no other
pub upsert-granted_exists :
    (j k : Key) (r : Row) (f : Row → Row) (l : Ledger)
    → granted_exists j (upsert k r f l) ≡ (granted_exists j l || same_key j k)
upsert-granted_exists j k r f l = elim (Bool-cases (same_key j k)) [
  | inl s ↦
      let e = (same_key_iff j k).0 s in rw (e, find-upsert_self k r f l, same_refl k) (ground arith)
  | inr d ↦ rw (d, find-upsert_ne j k r f l (same_false j k d)) (ground arith)
]

module _ (script : Script) where
  pub announce-ledger :
      (m : Option (Text × Text)) (w : World) → (announce script m w).1.ledger ≡ w.ledger
  announce-ledger none w = refl
  announce-ledger (some m) w = refl

  pub announce-asked :
      (m : Option (Text × Text)) (w : World) → asked (announce script m w).1.trace ≡ asked w.trace
  announce-asked none w = refl
  announce-asked (some m) w = refl

module _ (script : Script) (message : Option (Text × Text)) (version : Text) (items : List Item)
    (a : Account) (w : World) where
  -- what a visit may do to the world
  pub data Visited : Option Visit → World → Type 0 where
    blank : is_empty (strip a.fls) ≡ true → Visited (some ignored) w
    known :
        is_empty (strip a.fls) ≡ false
        → granted_exists (key_of version a) w.ledger ≡ true
        → Visited (some skip) w
    served :
        {v : Visit} {u : World}
        → is_empty (strip a.fls) ≡ false
        → granted_exists (key_of version a) w.ledger ≡ false
        → (v ≡ grant) ⊎ (v ≡ fail)
        → ((j : Key)
            → granted_exists j u.ledger
              ≡ (granted_exists j w.ledger || same_key j (key_of version a)))
        → asked u.trace ≡ each (key_of version a) items (asked w.trace)
        → Visited (some v) u
    stopped :
        {u : World}
        → is_empty (strip a.fls) ≡ false
        → granted_exists (key_of version a) w.ledger ≡ false
        → u.ledger ≡ w.ledger
        → Adds (key_of version a) (asked u.trace) (asked w.trace)
        → Visited none u
    untold :
        {u : World}
        → is_empty (strip a.fls) ≡ false
        → granted_exists (key_of version a) w.ledger ≡ false
        → u.ledger ≡ record_granted (key_of version a) w.ledger
        → asked u.trace ≡ each (key_of version a) items (asked w.trace)
        → (t : World) × (announce script message t ≡ (false, u))
        → Visited none u

  settle-Visited :
      (o : Option (List Text)) (u : World)
      → is_empty (strip a.fls) ≡ false
      → granted_exists (key_of version a) w.ledger ≡ false
      → u.ledger ≡ w.ledger
      → Adds (key_of version a) (asked u.trace) (asked w.trace)
      → ((rs : List Text)
          → o ≡ some rs
          → asked u.trace ≡ each (key_of version a) items (asked w.trace))
      → Visited
          (settle script message (key_of version a) o u).0
          (settle script message (key_of version a) o u).1
  settle-Visited none u b n same more h = stopped b n same more
  settle-Visited (some []) u b n same more h =
      let k = key_of version a in
      let v = on_ledger (record_granted k) u in
      let run = announce-asked script message v ∙ h [] refl in
      elim (Bool-cases (announce script message v).0) [
        | inl t ↦ rw t (
            served b n (inl refl)
              (λ j.
                ap (granted_exists j) (announce-ledger script message v)
                ∙ (upsert-granted_exists j k
                      (record { status = granted; attempts = 1; last_error = [] })
                      (again granted []) u.ledger
                    ∙ ap (λ l. granted_exists j l || same_key j k) same))
              run)
        | inr t ↦ rw t (
            untold b n (announce-ledger script message v ∙ ap (record_granted k) same) run
              (v, ap (λ b. (b, (announce script message v).1)) t))
      ]
  settle-Visited (some (r ∷ rs)) u b n same more h =
      let k = key_of version a in
      served b n (inr refl)
        (λ j.
          upsert-granted_exists j k (record { status = failed; attempts = 1; last_error = r ∷ rs })
            (again failed (r ∷ rs)) u.ledger
          ∙ ap (λ l. granted_exists j l || same_key j k) same)
        (h (r ∷ rs) refl)

  pub visit-Visited :
      Visited (visit script message version items a w).0 (visit script message version items a w).1
  unfolding visit
  visit-Visited =
      let k = key_of version a in
      let r = grant_account script a.fls k items w in
      elim (Bool-cases (is_empty (strip a.fls))) [
        | inl b ↦ rw b (blank b)
        | inr b ↦ elim (Bool-cases (granted_exists k w.ledger)) [
          | inl e ↦ rw (b, e) (known b e)
          | inr e ↦
              rw (b, e)
                (settle-Visited r.0 r.1 b e (grant_account-ledger script a.fls k items w)
                  (grant_account-Adds script a.fls k items w)
                  (λ rs h. grant_account-asked script a.fls k items w h))
        ]
      ]
