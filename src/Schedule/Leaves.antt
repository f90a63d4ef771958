-- ===== src/Schedule/Leaves.antt =====
-- Actions that leave an observation of the world as it was, one rule for each way to build one.
use pelican_egg_dune_awakeni.Base.{◌≡◌, refl, ◌∙◌, Bool, true, false, if◌then◌else◌}
use pelican_egg_dune_awakeni.Schedule.Action.{
  Result, ok, raised, killed, World, M, pure, gets, catch, handle_result, resume, ◌>>=◌,
}
use pelican_egg_dune_awakeni.Schedule.Ledger.{Ledger}

pub record Leaves {B : Type 0} (f : World → B) {A : Type 0} (m : M A) : Type 0 where
  pub at : (w : World) → f (m w).1 ≡ f w

module _ {B : Type 0} {f : World → B} {A : Type 0} where
  pub Leaves-pure : (a : A) → Leaves f (pure a)
  unfolding pure
  Leaves-pure a = record { at = λ w. refl }

  pub Leaves-gets : (g : Ledger → A) → Leaves f (gets g)
  unfolding gets
  Leaves-gets g = record { at = λ w. refl }

  pub Leaves-if : (b : Bool) (m n : M A) → Leaves f m → Leaves f n → Leaves f (if b then m else n)
  Leaves-if true m n hm hn = hm
  Leaves-if false m n hm hn = hn

  handled : (r : Result A) (h : M A) (w : World) → Leaves f h → f (handle_result r h w).1 ≡ f w
  handled (ok a) h w k = refl
  handled raised h w k = k.at w
  handled killed h w k = refl

  pub Leaves-catch : (m h : M A) → Leaves f m → Leaves f h → Leaves f (catch m h)
  unfolding catch
  Leaves-catch m h km kh = record { at = λ w. handled (m w).0 h (m w).1 kh ∙ km.at w }

module _ {B : Type 0} {f : World → B} {A C : Type 0} where
  resumed :
      (r : Result A) (k : A → M C) (w : World)
      → ((a : A) → Leaves f (k a))
      → f (resume r k w).1 ≡ f w
  resumed (ok a) k w h = (h a).at w
  resumed raised k w h = refl
  resumed killed k w h = refl

  pub Leaves-bind :
      (m : M A) (k : A → M C) → Leaves f m → ((a : A) → Leaves f (k a)) → Leaves f (m >>= k)
  unfolding ◌>>=◌
  Leaves-bind m k hm hk = record { at = λ w. resumed (m w).0 k (m w).1 hk ∙ hm.at w }

  -- what a first action makes of the observation stays
  pub bind_then :
      (m : M A) (k : A → M C) (w : World) {v : B}
      → f (m w).1 ≡ v
      → ((a : A) → Leaves f (k a))
      → f ((m >>= k) w).1 ≡ v
  unfolding ◌>>=◌
  bind_then m k w e h = resumed (m w).0 k (m w).1 h ∙ e

pub ruleset leaves_rules = (Leaves-pure, Leaves-gets, Leaves-if, Leaves-catch, Leaves-bind)
