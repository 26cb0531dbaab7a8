-- ===== src/Prelude/Effects.antt =====
-- A Go call on a mutable world: it returns a value or an error, or panics, and leaves a new world.
use mathlib.Core.Path.{◌≡◌, refl}
use mathlib.Core.Logic.{◌⊎◌, inl, inr}
use mathlib.Core.Bool.{Bool, true, false}
use Prim.Native.String.{String}
use native.Mathlib.Omega.{arith}

pub data Result {ℓ} (E A : Type ℓ) : Type ℓ where
  ok : A → Result E A
  err : E → Result E A
  panic : String → Result E A

module _ {ℓ} {E A : Type ℓ} where
  abbrev pub is_ok : Result E A → Bool
  is_ok (ok a) = true
  is_ok (err e) = false
  is_ok (panic s) = false

module _ {ℓ} {E A : Type ℓ} where
  pub ok_inj : {a b : A} → ◌≡◌ {A = Result E A} (ok a) (ok b) → a ≡ b
  ok_inj h = cc

abbrev pub Exec {ℓ} : Type ℓ → Type ℓ → Type ℓ → Type ℓ
Exec W E A = W → Result E A × W

module _ {ℓ} {W E A : Type ℓ} where
  unfoldable pub pure : A → Exec W E A
  pure a w = (ok a, w)

  unfoldable pub fail : E → Exec W E A
  fail e w = (err e, w)

  unfoldable pub panics : String → Exec W E A
  panics s w = (panic s, w)

  unfoldable pub lift : Result E A → Exec W E A
  lift r w = (r, w)

module _ {ℓ} {W E : Type ℓ} where
  -- A call that returns nothing and cannot fail.
  unfoldable pub effect : (W → W) → Exec W E (Unit {ℓ})
  effect f w = (ok tt, f w)

module _ {ℓ} {E E' A : Type ℓ} where
  -- `if err != nil { return wrapped }` with the error's text put into a new error.
  abbrev pub wrapped : (E → E') → Result E A → Result E' A
  wrapped f (ok a) = ok a
  wrapped f (err e) = err (f e)
  wrapped f (panic s) = panic s

  pub wrapped-eq-ok : (f : E → E') (r : Result E A) {a : A} → wrapped f r ≡ ok a → r ≡ ok a
  wrapped-eq-ok f (ok b) h = ground arith
  wrapped-eq-ok f (err e) h = cc
  wrapped-eq-ok f (panic s) h = cc

module _ {ℓ} {W E E' A : Type ℓ} where
  unfoldable pub map_err : (E → E') → Exec W E A → Exec W E' A
  map_err f m w = (wrapped f (m w).0, (m w).1)

  pub map_err-eq-ok :
      (f : E → E') (m : Exec W E A) (w : W) {a : A} → (map_err f m w).0 ≡ ok a → (m w).0 ≡ ok a
  unfolding map_err
  map_err-eq-ok f m w h = wrapped-eq-ok f (m w).0 h

  pub map_err-lift-eq-ok :
      (f : E → E') (r : Result E A) (w : W) {a : A} → (map_err f (lift r) w).0 ≡ ok a → r ≡ ok a
  unfolding map_err lift
  map_err-lift-eq-ok f r w h = wrapped-eq-ok f r h

module _ {ℓ} {W E A : Type ℓ} where
  pub pure-eq-ok : {a b : A} (w : W) → (pure {E = E} a w).0 ≡ ok b → a ≡ b
  unfolding pure
  pure-eq-ok w h = ok_inj h

module _ {ℓ} {W E A B : Type ℓ} where
  abbrev pub continue : Result E A → (A → Exec W E B) → Exec W E B
  continue (ok a) f w = f a w
  continue (err e) f w = (err e, w)
  continue (panic s) f w = (panic s, w)

  infixl 5 ◌>>=◌ ◌>>◌
  -- To open this is to open every way to build a call.
  unfoldable pub ◌>>=◌ : Exec W E A → (A → Exec W E B) → Exec W E B
  unfolding pure fail panics effect lift map_err
  ◌>>=◌ m f w = continue (m w).0 f (m w).1

  abbrev pub ◌>>◌ : Exec W E A → Exec W E B → Exec W E B
  m >> k = m >>= λ _. k

  -- A sequence that returns has both parts return.
  pub continue-eq-ok :
      (r : Result E A) (f : A → Exec W E B) (w : W) {b : B}
      → (continue r f w).0 ≡ ok b
      → (a : A) × (r ≡ ok a) × ((f a w).0 ≡ ok b)
  continue-eq-ok (ok a) f w h = (a, refl, h)
  continue-eq-ok (err e) f w h = cc
  continue-eq-ok (panic s) f w h = cc

  -- A sequence that fails does so in one of its parts.
  pub continue-eq-err :
      (r : Result E A) (f : A → Exec W E B) (w : W) {e : E}
      → (continue r f w).0 ≡ err e
      → (r ≡ err e) ⊎ ((a : A) × (r ≡ ok a) × ((f a w).0 ≡ err e))
  continue-eq-err (ok a) f w h = inr (a, refl, h)
  continue-eq-err (err e) f w h = inl (ground arith)
  continue-eq-err (panic s) f w h = cc

  -- The same of a sequence of calls, with the world that it leaves.
  pub bind-eq-ok :
      (m : Exec W E A) (f : A → Exec W E B) (w : W) {b : B}
      → ((m >>= f) w).0 ≡ ok b
      → (a : A) × ((m w).0 ≡ ok a) × ((f a (m w).1).0 ≡ ok b) × (((m >>= f) w).1 ≡ (f a (m w).1).1)
  unfolding ◌>>=◌
  bind-eq-ok m f w h = go (m w).0 h
    where
      go :
          (r : Result E A) {b : B}
          → (continue r f (m w).1).0 ≡ ok b
          → (a : A) × (r ≡ ok a)
            × ((f a (m w).1).0 ≡ ok b)
            × ((continue r f (m w).1).1 ≡ (f a (m w).1).1)
      go (ok a) h = (a, refl, h, refl)
      go (err e) h = cc
      go (panic s) h = cc

module _ {ℓ} {W E E' A B : Type ℓ} where
  -- What a constructor returns is made of the client that it got.
  pub made_of :
      (f : E → E') (m : Exec W E A) (make : A → B) (w : W) {b : B}
      → ((map_err f m >>= λ a. pure (make a)) w).0 ≡ ok b
      → (a : A) × ((m w).0 ≡ ok a) × (make a ≡ b)
  unfolding ◌>>=◌
  made_of f m make w h =
      let (a, got, same) = continue-eq-ok _ _ _ h in (a, wrapped-eq-ok f _ got, ok_inj same)
