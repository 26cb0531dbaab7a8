-- ===== src/Prelude/Loops.antt =====
-- Go's `for _, x := range xs` with a body that may return an error, and `defer`.
use mathlib.Core.Path.{◌≡◌, sym, ap, ◌∙◌}
use mathlib.Core.List.{List, [], ◌∷◌, ◌++◌, append-nil, append_assoc}
use bank_vaults.Prelude.Effects.{Exec, pure, ok, ◌>>◌, bind-eq-ok}
use bank_vaults.Prelude.Keeping.{Keeps, Keeps-pure, Keeps-bind}

-- The lists of all elements, one after the other.
abbrev pub flat_map {ℓ} : {A B : Type ℓ} → (A → List B) → List A → List B
flat_map f [] = []
flat_map f (x ∷ xs) = f x ++ flat_map f xs

module _ {ℓ} {W E : Type ℓ} {A : Type ℓ} where
  -- The first error or panic of the body ends the loop.
  unfoldable pub for_each : (A → Exec W E (Unit {ℓ})) → List A → Exec W E (Unit {ℓ})
  for_each body [] = pure tt
  for_each body (x ∷ xs) = body x >> for_each body xs

  pub Keeps-for_each :
      {P : W → Type ℓ} (body : A → Exec W E (Unit {ℓ})) (xs : List A)
      → ((x : A) → Keeps P (body x))
      → Keeps P (for_each body xs)
  unfolding for_each
  Keeps-for_each body [] h = Keeps-pure tt
  Keeps-for_each body (x ∷ xs) h = Keeps-bind _ _ (h x) (λ _. Keeps-for_each body xs h)

module _ {ℓ} {W E : Type ℓ} {A : Type ℓ} where
  -- A log that each round extends by `items x` holds the items of all elements after the loop.
  pub for_each-logs :
      {B : Type ℓ} (log : W → List B) (items : A → List B) (body : A → Exec W E (Unit {ℓ}))
      (xs : List A)
      → ((x : A) (w : W) → (body x w).0 ≡ ok tt → log (body x w).1 ≡ log w ++ items x)
      → (w : W) → (for_each body xs w).0 ≡ ok tt
      → log (for_each body xs w).1 ≡ log w ++ flat_map items xs
  unfolding for_each pure
  for_each-logs log items body [] h w done = sym (append-nil (log w))
  for_each-logs log items body (x ∷ xs) h w done =
      let (_, first, rest, last) = bind-eq-ok (body x) (λ _. for_each body xs) w done in
      ap log last
      ∙ for_each-logs log items body xs h _ rest
      ∙ ap (λ l. l ++ flat_map items xs) (h x w first)
      ∙ append_assoc (log w) (items x) (flat_map items xs)

module _ {ℓ} {W E A : Type ℓ} where
  -- What is deferred runs however the call ends.
  unfoldable pub deferred : (W → W) → Exec W E A → Exec W E A
  deferred last m w = let (r, w') = m w in (r, last w')
