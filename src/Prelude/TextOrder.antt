-- ===== src/Prelude/TextOrder.antt =====
-- The order of texts by code points is total.
use Prim.Native.Nat.{ℕ, compare as compare_ℕ, Ordering}
use Prim.Native.Char.{code}
use Prim.Native.String.{String, [], ◌∷◌, compare, then}
use Prim.Native.String.compare
use mathlib.Core.Path.{◌≡◌, refl}
use mathlib.Core.Logic.{◌⊎◌, inl, inr}
use mathlib.Core.Bool.{true, false}
use native.Mathlib.Omega.{arith}
use text.Mathlib.TextEquality.{path_by_compare}
use muse_agent_social.Prelude.Tests.{text_lt}

flip : Ordering → Ordering
flip Ordering.lt = Ordering.gt
flip Ordering.eq = Ordering.eq
flip Ordering.gt = Ordering.lt

flip-compare_ℕ : (m n : ℕ) → compare_ℕ n m ≡ flip (compare_ℕ m n)
unfolding flip
flip-compare_ℕ m n = ground arith

flip-then : (o r : Ordering) → then (flip o) (flip r) ≡ flip (then o r)
unfolding flip
flip-then Ordering.lt r = refl
flip-then Ordering.eq r = refl
flip-then Ordering.gt r = refl

flip-compare : (a b : String) → compare b a ≡ flip (compare a b)
unfolding flip
flip-compare [] [] = refl
flip-compare [] (d ∷ t) = rw (compare.nil-cons d t, compare.cons-nil d t) refl
flip-compare (c ∷ s) [] = rw (compare.nil-cons c s, compare.cons-nil c s) refl
flip-compare (c ∷ s) (d ∷ t) =
    rw
      (
        compare.cons-cons c d s t,
        compare.cons-cons d c t s,
        flip-compare_ℕ (code c) (code d),
        flip-compare s t,
      )
      (flip-then (compare_ℕ (code c) (code d)) (compare s t))

Ordering-cases : (o : Ordering) → (o ≡ Ordering.lt) ⊎ ((o ≡ Ordering.eq) ⊎ (o ≡ Ordering.gt))
Ordering-cases Ordering.lt = inl refl
Ordering-cases Ordering.eq = inr (inl refl)
Ordering-cases Ordering.gt = inr (inr refl)

pub text_lt-asym : (a b : String) → text_lt a b ≡ true → text_lt b a ≡ false
unfolding flip
text_lt-asym a b h = elim (Ordering-cases (compare a b)) [
  | inl e ↦ rw (text_lt, flip-compare a b, e) refl
  | inr (inl e) ↦ ground (arith, h, e)
  | inr (inr e) ↦ ground (arith, h, e)
]

pub text_lt-cases : (a b : String) → (text_lt a b ≡ true) ⊎ ((a ≡ b) ⊎ (text_lt b a ≡ true))
unfolding flip
text_lt-cases a b = elim (Ordering-cases (compare a b)) [
  | inl e ↦ inl (rw (text_lt, e) refl)
  | inr (inl e) ↦ inr (inl (path_by_compare a b e))
  | inr (inr e) ↦ inr (inr (rw (text_lt, flip-compare a b, e) refl))
]
