-- ===== src/Prelude/Growth.antt =====
-- Tables that only grow: every row keeps its place, and changes by a relation.
use mathlib.Core.Path.{◌≡◌, refl}
use mathlib.Core.Bool.{Bool}
use mathlib.Core.Option.{some}
use mathlib.Core.List.{List, [], ◌∷◌, ◌++◌}
use mathlib.Core.Logic.{inl, inr}
use muse_agent_social.Prelude.Tests.{Bool-cases}
use muse_agent_social.Prelude.Table.{find, update}

abbrev pub Grows {ℓ} : {A : Type ℓ} → (A → A → Type 0) → List A → List A → Type 0
Grows R [] ys = Unit
Grows R (x ∷ xs) [] = ⊥
Grows R (x ∷ xs) (y ∷ ys) = R x y × Grows R xs ys

module _ {ℓ} {A : Type ℓ} (R : A → A → Type 0) where
  pub Grows-refl : ((x : A) → R x x) → (xs : List A) → Grows R xs xs
  Grows-refl r [] = tt
  Grows-refl r (x ∷ xs) = (r x, Grows-refl r xs)

  pub Grows-insert : (xs ys : List A) (y : A) → Grows R xs ys → Grows R xs (ys ++ y ∷ [])
  Grows-insert [] ys y h = tt
  Grows-insert (x ∷ xs) [] y h = absurd h
  Grows-insert (x ∷ xs) (z ∷ ys) y h = (h.0, Grows-insert xs ys y h.1)

  -- An update of the row that `find` returns.
  pub Grows-update :
      ((x y z : A) → R x y → R y z → R x z)
      → (p : A → Bool) (f : A → A) (xs ys : List A) → ((y : A) → find p ys ≡ some y → R y (f y))
      → Grows R xs ys
      → Grows R xs (update p f ys)
  unfolding find update
  Grows-update t p f [] ys s h = tt
  Grows-update t p f (x ∷ xs) [] s h = h
  Grows-update t p f (x ∷ xs) (y ∷ ys) s h = elim (Bool-cases (p y)) [
    | inl e ↦ rw e (t x y (f y) h.0 (s y (rw e refl)), h.1)
    | inr e ↦ rw e (h.0, Grows-update t p f xs ys (λ z ez. s z (rw e ez)) h.1)
  ]

  pub Grows-trans :
      ((x y z : A) → R x y → R y z → R x z)
      → (xs ys zs : List A) → Grows R xs ys
      → Grows R ys zs
      → Grows R xs zs
  Grows-trans t [] ys zs h k = tt
  Grows-trans t (x ∷ xs) [] zs h k = absurd h
  Grows-trans t (x ∷ xs) (y ∷ ys) [] h k = absurd k
  Grows-trans t (x ∷ xs) (y ∷ ys) (z ∷ zs) h k = (t x y z h.0 k.0, Grows-trans t xs ys zs h.1 k.1)
