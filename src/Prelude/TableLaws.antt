-- ===== src/Prelude/TableLaws.antt =====
-- What the statements on tables do to what later ones read.
use mathlib.Core.Path.{◌≡◌, refl}
use mathlib.Core.Bool.{Bool, true, false, ◌||◌}
use mathlib.Core.Option.{none, some}
use mathlib.Core.List.{List, [], ◌∷◌}
use mathlib.Core.Logic.{inl, inr}
use Prim.Native.Nat.{◌+◌, ◌≤◌}
use native.Mathlib.Omega.{arith}
use muse_agent_social.Prelude.Tests.{Bool-cases, if◌then◌else◌}
use muse_agent_social.Prelude.Lists.{All}
use muse_agent_social.Prelude.Table.{find, exists, select, count, insert, update, delete}

module _ {ℓ} {A : Type ℓ} (p : A → Bool) where
  pub exists-insert : (xs : List A) (y : A) → exists p (insert y xs) ≡ (exists p xs || p y)
  unfolding exists
  exists-insert [] y = ground arith
  exists-insert (x ∷ xs) y = ground (arith, exists-insert xs y)

  pub count-insert :
      (xs : List A) (y : A) → count p (insert y xs) ≡ count p xs + (if p y then 1 else 0)
  unfolding count
  count-insert [] y = ground arith
  count-insert (x ∷ xs) y = ground (arith, count-insert xs y)

  pub exists_of_find : (xs : List A) (y : A) → find p xs ≡ some y → exists p xs ≡ true
  unfolding find exists
  exists_of_find [] y h = ground arith
  exists_of_find (x ∷ xs) y h = ground (arith, exists_of_find xs y)

  pub not-exists_of_find : (xs : List A) → find p xs ≡ none → exists p xs ≡ false
  unfolding find exists
  not-exists_of_find [] h = refl
  not-exists_of_find (x ∷ xs) h = ground (arith, not-exists_of_find xs)

  pub find-accepts : (xs : List A) (y : A) → find p xs ≡ some y → p y ≡ true
  unfolding find
  find-accepts [] y h = ground arith
  find-accepts (x ∷ xs) y h = elim (Bool-cases (p x)) [
    | inl e ↦ ground arith
    | inr e ↦ find-accepts xs y (ground arith)
  ]

  pub count-delete : (q : A → Bool) (xs : List A) → count p (delete q xs) ≤ count p xs
  unfolding count select
  count-delete q [] = omega arith
  count-delete q (x ∷ xs) = ground (arith, count-delete q xs)

  -- An update that leaves `p` alone.
  module _ (q : A → Bool) (f : A → A) (same : (x : A) → p (f x) ≡ p x) where
    pub exists-update : (xs : List A) → exists p (update q f xs) ≡ exists p xs
    unfolding exists update
    exists-update [] = refl
    exists-update (x ∷ xs) = ground (arith, exists-update xs, same x)

    pub count-update : (xs : List A) → count p (update q f xs) ≡ count p xs
    unfolding count update
    count-update [] = refl
    count-update (x ∷ xs) = ground (arith, count-update xs, same x)

module _ {ℓ} {A : Type ℓ} (P : A → Type 0) where
  pub All-insert : (xs : List A) (y : A) → All P xs → P y → All P (insert y xs)
  All-insert [] y h hy = (hy, tt)
  All-insert (x ∷ xs) y h hy = (h.0, All-insert xs y h.1 hy)

  pub All-update :
      (q : A → Bool) (f : A → A)
      → ((x : A) → P x → P (f x))
      → (xs : List A) → All P xs
      → All P (update q f xs)
  unfolding update
  All-update q f step [] h = tt
  All-update q f step (x ∷ xs) h = elim (Bool-cases (q x)) [
    | inl e ↦ rw e (step x h.0, h.1)
    | inr e ↦ rw e (h.0, All-update q f step xs h.1)
  ]

  pub All-select : (q : A → Bool) (xs : List A) → All P xs → All P (select q xs)
  unfolding select
  All-select q [] h = tt
  All-select q (x ∷ xs) h = elim (Bool-cases (q x)) [
    | inl e ↦ rw e (h.0, All-select q xs h.1)
    | inr e ↦ rw e (All-select q xs h.1)
  ]

module _ {ℓ} {A : Type ℓ} (q : A → Bool) (f : A → A) where
  -- No row to update.
  pub update-none : (xs : List A) → find q xs ≡ none → update q f xs ≡ xs
  unfolding find update
  update-none [] h = refl
  update-none (x ∷ xs) h = ground (arith, update-none xs)

  -- What the one updated row changes in a count.
  pub count-update_found :
      (p : A → Bool) (xs : List A) (r : A)
      → find q xs ≡ some r
      → count p (update q f xs) + (if p r then 1 else 0) ≡ count p xs + (if p (f r) then 1 else 0)
  unfolding find update count
  count-update_found p [] r h = ground arith
  count-update_found p (x ∷ xs) r h = elim (Bool-cases (q x)) [
    | inl e ↦ let same : x ≡ r = ground arith in rw (e, same) (omega arith)
    | inr e ↦ ground (arith, count-update_found p xs r)
  ]

module _ {ℓ} {A : Type ℓ} (q : A → Bool) where
  pub find-none_of_exists : (xs : List A) → exists q xs ≡ false → find q xs ≡ none
  unfolding find exists
  find-none_of_exists [] h = refl
  find-none_of_exists (x ∷ xs) h = ground (arith, find-none_of_exists xs)

  -- The row that a search finds after its own update, and after another one.
  pub find-update_self :
      (f : A → A)
      → ((x : A) → q (f x) ≡ q x)
      → (xs : List A) (r : A) → find q xs ≡ some r
      → find q (update q f xs) ≡ some (f r)
  unfolding find update
  find-update_self f same [] r h = ground arith
  find-update_self f same (x ∷ xs) r h = ground (arith, find-update_self f same xs r, same x)

  pub find-update_other :
      (p : A → Bool) (f : A → A)
      → ((x : A) → p (f x) ≡ p x)
      → ((x : A) → q x ≡ true → p x ≡ false)
      → (xs : List A) → find p (update q f xs) ≡ find p xs
  unfolding find update
  find-update_other p f same apart [] = refl
  find-update_other p f same apart (x ∷ xs) =
      ground (arith, find-update_other p f same apart xs, same x, apart x)

  pub find-insert :
      (xs : List A) (y : A)
      → find q (insert y xs) ≡ (if exists q xs then find q xs else if q y then some y else none)
  unfolding find exists
  find-insert [] y = ground arith
  find-insert (x ∷ xs) y = ground (arith, find-insert xs y)

  -- A deletion, read by a search that the deleted rows are part of.
  pub exists-delete :
      (p : A → Bool) (xs : List A)
      → ((x : A) → p x ≡ true → q x ≡ false)
      → exists p (delete q xs) ≡ exists p xs
  unfolding exists select
  exists-delete p [] apart = refl
  exists-delete p (x ∷ xs) apart = ground (arith, exists-delete p xs apart, apart x)

  pub exists-delete_self : (xs : List A) → exists q (delete q xs) ≡ false
  unfolding exists select
  exists-delete_self [] = refl
  exists-delete_self (x ∷ xs) = ground (arith, exists-delete_self xs)
