-- ===== src/Prelude/Keeping.antt =====
-- Invariants of calls: what holds of the world before holds after, whether the call returns, fails
-- or panics. There is one rule for each way to build a call.
use mathlib.Core.Path.{◌≡◌, refl, sym, subst}
use mathlib.Core.Bool.{Bool, true, false}
use bank_vaults.Prelude.Tests.{if◌then◌else◌}
use bank_vaults.Prelude.Effects.{
  Exec, Result, ok, err, panic, pure, fail, panics, effect, lift, map_err, continue, ◌>>=◌,
  wrapped-eq-ok,
}
use Prim.Native.String.{String}

pub record Keeps {ℓ} {W E A : Type ℓ} (P : W → Type ℓ) (m : Exec W E A) : Type ℓ where
  pub at : (w : W) → P w → P (m w).1

module _ {ℓ} {W E A : Type ℓ} {P : W → Type ℓ} where
  pub Keeps-if :
      (c : Bool) (p q : Exec W E A)
      → (c ≡ true → Keeps P p)
      → (c ≡ false → Keeps P q)
      → Keeps P (if c then p else q)
  Keeps-if true p q kp kq = kp refl
  Keeps-if false p q kp kq = kq refl

  pub Keeps-pure : (a : A) → Keeps P (pure {E = E} a)
  unfolding pure
  Keeps-pure a = record { at = λ w held. held }

  pub Keeps-fail : (e : E) → Keeps P (fail {A = A} e)
  unfolding fail
  Keeps-fail e = record { at = λ w h. h }

  pub Keeps-panics : (s : String) → Keeps P (panics {E = E} {A = A} s)
  unfolding panics
  Keeps-panics s = record { at = λ w h. h }

  pub Keeps-lift : (r : Result E A) → Keeps P (lift r)
  unfolding lift
  Keeps-lift r = record { at = λ w h. h }

module _ {ℓ} {W E : Type ℓ} {P : W → Type ℓ} where
  pub Keeps-effect : (f : W → W) → ((w : W) → P w → P (f w)) → Keeps P (effect {E = E} f)
  unfolding effect
  Keeps-effect f kf = record { at = kf }

module _ {ℓ} {W E E' A : Type ℓ} {P : W → Type ℓ} where
  pub Keeps-map_err : (f : E → E') (m : Exec W E A) → Keeps P m → Keeps P (map_err f m)
  unfolding map_err
  Keeps-map_err f m km = record { at = km.at }

module _ {ℓ} {W E A B : Type ℓ} {P : W → Type ℓ} where
  Keeps-continue :
      (r : Result E A) (f : A → Exec W E B)
      → ((a : A) → Keeps P (f a))
      → (w : W) → P w
      → P (continue r f w).1
  Keeps-continue (ok a) f kf w h = (kf a).at w h
  Keeps-continue (err e) f kf w h = h
  Keeps-continue (panic s) f kf w h = h

  pub Keeps-bind :
      (m : Exec W E A) (f : A → Exec W E B)
      → Keeps P m
      → ((a : A) → Keeps P (f a))
      → Keeps P (m >>= f)
  unfolding ◌>>=◌
  Keeps-bind m f km kf = record { at = λ w h. Keeps-continue (m w).0 f kf (m w).1 (km.at w h) }

module _ {ℓ} {W E A B : Type ℓ} {P : W → Type ℓ} where
  Keeps-continue_ok :
      (r : Result E A) (f : A → Exec W E B) (w : W)
      → ((a : A) → r ≡ ok a → Keeps P (f a))
      → P w
      → P (continue r f w).1
  Keeps-continue_ok (ok a) f w kf h = (kf a refl).at w h
  Keeps-continue_ok (err e) f w kf h = h
  Keeps-continue_ok (panic s) f w kf h = h

  -- The rest is asked for the results that the first part can have.
  pub Keeps-bind_ok :
      (m : Exec W E A) (f : A → Exec W E B)
      → Keeps P m
      → ((w : W) (a : A) → (m w).0 ≡ ok a → Keeps P (f a))
      → Keeps P (m >>= f)
  unfolding ◌>>=◌
  Keeps-bind_ok m f km kf = record {
    at = λ w h. Keeps-continue_ok (m w).0 f (m w).1 (kf w) (km.at w h);
  }

module _ {ℓ} {W E A B : Type ℓ} (P : W → Type ℓ) where
  kept_by_continue :
      (r : Result E A) (f : A → Exec W E B) (w : W)
      → P w
      → ((a : A) → r ≡ ok a → P (f a w).1)
      → P (continue r f w).1
  kept_by_continue (ok a) f w h k = k a refl
  kept_by_continue (err e) f w h k = h
  kept_by_continue (panic s) f w h k = h

  -- The same from one world, for the result that the first part has there.
  pub kept_by_bind :
      (m : Exec W E A) (f : A → Exec W E B) (w : W)
      → P (m w).1
      → ((a : A) → (m w).0 ≡ ok a → P (f a (m w).1).1)
      → P ((m >>= f) w).1
  unfolding ◌>>=◌
  kept_by_bind m f w h k = kept_by_continue (m w).0 f (m w).1 h k

-- What a call leaves alone, everything that is said of it is left alone too.
module _ {ℓ} {W E A X : Type ℓ} where
  pub Keeps-same :
      (f : W → X) (Q : X → Type ℓ) (m : Exec W E A)
      → ((w : W) → f (m w).1 ≡ f w)
      → Keeps (λ w. Q (f w)) m
  Keeps-same f Q m same = record { at = λ w h. subst Q (sym (same w)) h }

-- A postcondition of the calls that return: if `P` holds before and `m` returns `a`, then `Q a`
-- holds after.
pub record Ensures {ℓ} {W E A : Type ℓ} (P : W → Type ℓ) (m : Exec W E A) (Q : A → W → Type ℓ)
    : Type ℓ where
  pub at : (w : W) (a : A) → P w → (m w).0 ≡ ok a → Q a (m w).1

module _ {ℓ} {W E A B : Type ℓ} {R : A → W → Type ℓ} {Q : B → W → Type ℓ} where
  Ensures-continue :
      (r : Result E A) (f : A → Exec W E B) (w : W) (b : B)
      → ((a : A) → r ≡ ok a → R a w)
      → ((a : A) → Ensures (R a) (f a) Q)
      → (continue r f w).0 ≡ ok b
      → Q b (continue r f w).1
  Ensures-continue (ok a) f w b h k e = (k a).at w b (h a refl) e
  Ensures-continue (err x) f w b h k e = cc
  Ensures-continue (panic s) f w b h k e = cc

  pub Ensures-bind :
      {P : W → Type ℓ} (m : Exec W E A) (f : A → Exec W E B)
      → Ensures P m R
      → ((a : A) → Ensures (R a) (f a) Q)
      → Ensures P (m >>= f) Q
  unfolding ◌>>=◌
  Ensures-bind m f first next = record {
    at = λ w b h e. Ensures-continue (m w).0 f (m w).1 b (λ a r. first.at w a h r) next e;
  }

module _ {ℓ} {W E E' A : Type ℓ} {P : W → Type ℓ} {Q : A → W → Type ℓ} where
  pub Ensures-map_err : (f : E → E') (m : Exec W E A) → Ensures P m Q → Ensures P (map_err f m) Q
  unfolding map_err
  Ensures-map_err f m h = record { at = λ w a p e. h.at w a p (wrapped-eq-ok f (m w).0 e) }

-- What holds after every call that returns, whatever held before.
abbrev pub Gives {ℓ} : {W E A : Type ℓ} → Exec W E A → (A → W → Type ℓ) → Type ℓ
Gives m Q = Ensures (λ _. Unit) m Q

module _ {ℓ} {W E A B : Type ℓ} where
  -- What the first part gives and the rest keeps.
  pub Gives-first :
      {Q : W → Type ℓ} (m : Exec W E A) (f : A → Exec W E B)
      → Gives m (λ _. Q)
      → ((a : A) → Keeps Q (f a))
      → Gives (m >>= f) (λ _. Q)
  Gives-first m f first next =
      Ensures-bind m f first (λ a. record { at = λ w b q e. (next a).at w q })

  -- What the rest gives.
  pub Gives-rest :
      {Q : B → W → Type ℓ} (m : Exec W E A) (f : A → Exec W E B)
      → ((a : A) → Gives (f a) Q)
      → Gives (m >>= f) Q
  Gives-rest m f next = Ensures-bind m f (record { at = λ w a u e. tt }) next

pub ruleset keeps_rules = (
  Keeps-pure, Keeps-fail, Keeps-panics, Keeps-lift, Keeps-effect, Keeps-if, Keeps-map_err,
  Keeps-bind,
)
