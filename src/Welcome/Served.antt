-- ===== src/Welcome/Served.antt =====
-- What a scan owes, without its rows: the keys of its accounts that have no row, each once.
use pelican_egg_dune_awakeni.Base.{
  ◌≡◌, refl, ap, Bool, true, false, not, ◌&&◌, ◌||◌, Bool-cases, inl, inr, List, [], ◌∷◌, Text,
  strip, is_empty, if◌then◌else◌, arith,
}
use pelican_egg_dune_awakeni.Welcome.Package.{Item, Account}
use pelican_egg_dune_awakeni.Welcome.Scan.{Event, gave, broadcast, key_of}
use pelican_egg_dune_awakeni.Welcome.Store.{
  Key, same_key, same_key_iff, Key_Eq, Ledger, granted_exists,
}

abbrev pub sift : (Key → Bool) → List Key → List Key
sift p [] = []
sift p (k ∷ ks) = let rest = sift p ks in if p k then k ∷ rest else rest

-- each key once, where it stands first
abbrev pub firsts : List Key → List Key
firsts [] = []
firsts (k ∷ ks) = k ∷ sift (λ j. not (same_key j k)) (firsts ks)

abbrev pub has_key : Key → List Key → Bool
has_key k [] = false
has_key k (j ∷ js) = same_key k j || has_key k js

-- the keys of the accounts that have a name
abbrev pub keys_of : Text → List Account → List Key
keys_of version [] = []
keys_of version (a ∷ rest) =
    let ks = keys_of version rest in if is_empty (strip a.fls) then ks else key_of version a ∷ ks

abbrev pub due : Ledger → List Key → List Key
due l ks = sift (λ k. not (granted_exists k l)) (firsts ks)

-- the runs of `give-item`, latest first, and those of a scan before them
abbrev pub asked : List Event → List (Key × Item)
asked [] = []
asked (gave fls k it ∷ es) = (k, it) ∷ asked es
asked (broadcast title body ∷ es) = asked es

abbrev pub each : Key → List Item → List (Key × Item) → List (Key × Item)
each k [] es = es
each k (it ∷ its) es = each k its ((k, it) ∷ es)

abbrev pub serve : List Item → List Key → List (Key × Item) → List (Key × Item)
serve items [] es = es
serve items (k ∷ ks) es = serve items ks (each k items es)

sift_twice :
    (p q r : Key → Bool) (ks : List Key)
    → ((k : Key) → (q k && p k) ≡ r k)
    → sift p (sift q ks) ≡ sift r ks
sift_twice p q r [] h = refl
sift_twice p q r (k ∷ ks) h = ground (arith, h k, sift_twice p q r ks h)

-- a key that gets a row is owed no longer
pub due_next :
    (l m : Ledger) (k : Key) (ks : List Key)
    → granted_exists k l ≡ false
    → ((j : Key) → granted_exists j m ≡ (granted_exists j l || same_key j k))
    → due l (k ∷ ks) ≡ k ∷ due m ks
due_next l m k ks new h = rw new (
    ap (λ r. k ∷ r)
      (sift_twice _ _ (λ j. not (granted_exists j m)) (firsts ks) (λ j. ground (arith, h j))))

-- a key that has one is not owed
pub due_known :
    (l : Ledger) (k : Key) (ks : List Key) → granted_exists k l ≡ true → due l (k ∷ ks) ≡ due l ks
due_known l k ks old = rw old (
    sift_twice _ _ (λ j. not (granted_exists j l)) (firsts ks)
      (λ j. elim (Bool-cases (same_key j k)) [
        | inl s ↦ rw (s, (same_key_iff j k).0 s, old) refl
        | inr d ↦ rw d refl
      ]))
