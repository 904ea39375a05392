-- ===== src/Prelude/Action.antt =====
-- State-passing actions, and what they preserve. A body that changes globals while it reads its
-- input is an action over both.
use mathlib.Core.Path.{◌≡◌}
use mathlib.Core.Bool.{Bool, true, false}
use opensamp.Prelude.Tests.{if◌then◌else◌, if_cases}

abbrev pub Action {ℓ} : Type ℓ → Type ℓ → Type ℓ
Action S A = S → A × S

module _ {ℓ} {S A : Type ℓ} where
  unfoldable pub pure : A → Action S A
  pure a s = (a, s)

module _ {ℓ} {S A B : Type ℓ} where
  infixl 10 ◌>>=◌
  unfoldable pub ◌>>=◌ : Action S A → (A → Action S B) → Action S B
  ◌>>=◌ m f s = f (m s).0 (m s).1

module _ {ℓ} {S B : Type ℓ} where
  infixl 10 ◌>>◌
  unfoldable pub ◌>>◌ : Action S Unit → Action S B → Action S B
  ◌>>◌ m k s = k (m s).1

-- The pair of the program's state and of the input that is being read.
module _ {W T : Type 0} where
  unfoldable pub modify : (W → W) → Action (W × T) Unit
  modify f (w, t) = (tt, (f w, t))

  unfoldable pub gets : {A : Type 0} → (W → A) → Action (W × T) A
  gets f (w, t) = (f w, (w, t))

  unfoldable pub reads : {A : Type 0} → (T → A × T) → Action (W × T) A
  reads f (w, t) = ((f t).0, (w, (f t).1))

-- The action keeps a relation between the state before and a fixed earlier one: `P` holds after
-- it wherever it held before.
pub record Keeps {W T A : Type 0} (P : W → Type 0) (m : Action (W × T) A) : Type 0 where
  pub at : (w : W) (t : T) → P w → P (m (w, t)).1.0

module _ {W T : Type 0} {P : W → Type 0} where
  pub Keeps-reads : {A : Type 0} (f : T → A × T) → Keeps P (reads f)
  unfolding reads
  Keeps-reads f = record { at = λ w t h. h }

  pub Keeps-pure : {A : Type 0} (value : A) → Keeps {T = T} P (pure value)
  unfolding pure
  Keeps-pure value = record { at = λ w t before. before }

  pub Keeps-modify : (f : W → W) → ((w : W) → P w → P (f w)) → Keeps {T = T} P (modify f)
  unfolding modify
  Keeps-modify f k = record { at = λ w t h. k w h }

  pub Keeps-bind :
      {A B : Type 0} (m : Action (W × T) A) (f : A → Action (W × T) B)
      → Keeps P m
      → ((a : A) → Keeps P (f a))
      → Keeps P (m >>= f)
  unfolding ◌>>=◌
  Keeps-bind m f km kf = record {
    at = λ w t h. (kf (m (w, t)).0).at (m (w, t)).1.0 (m (w, t)).1.1 (km.at w t h);
  }

  pub Keeps-then :
      {B : Type 0} (m : Action (W × T) Unit) (k : Action (W × T) B)
      → Keeps P m
      → Keeps P k
      → Keeps P (m >> k)
  unfolding ◌>>◌
  Keeps-then m k km kk = record { at = λ w t h. kk.at (m (w, t)).1.0 (m (w, t)).1.1 (km.at w t h) }

  pub Keeps-gets : {A : Type 0} (view : W → A) → Keeps {T = T} P (gets view)
  unfolding gets
  Keeps-gets view = record { at = λ w t before. before }

  -- Which branch is taken may be used for it.
  pub Keeps-if :
      {A : Type 0} (test : Bool) (left right : Action (W × T) A)
      → (test ≡ true → Keeps P left)
      → (test ≡ false → Keeps P right)
      → Keeps P (if test then left else right)
  Keeps-if test left right k l = if_cases (Keeps P) test k l

pub ruleset keeps_rules =
    (Keeps-pure, Keeps-gets, Keeps-reads, Keeps-modify, Keeps-bind, Keeps-then, Keeps-if)
