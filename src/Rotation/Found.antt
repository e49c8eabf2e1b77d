-- ===== src/Rotation/Found.antt =====
-- Searches through the statements of `RotationManager`.
use muse_agent_social.Prelude.{
  Bool, true, ◌&&◌, some, List, [], ◌∷◌, ◌≡◌, refl, arith, Bool-cases, inl, inr,
}
use muse_agent_social.Prelude.Table.{find, update}

module _ {A : Type 0} where
  pub find-and :
      (k g : A → Bool) (xs : List A) (r : A)
      → find k xs ≡ some r
      → g r ≡ true
      → find (λ x. k x && g x) xs ≡ some r
  unfolding find
  find-and k g [] r h hg = ground arith
  find-and k g (x ∷ xs) r h hg = elim (Bool-cases (k x)) [
    | inl e ↦ let same : x ≡ r = ground arith in rw (same, hg) (ground (arith, e))
    | inr e ↦ rw e (find-and k g xs r (ground arith) hg)
  ]

  -- The row that two searches find, after an update through one of them.
  pub find-update_both :
      (p q : A → Bool) (f : A → A) (xs : List A) (r : A)
      → find p xs ≡ some r
      → find q xs ≡ some r
      → p r ≡ true
      → q (f r) ≡ true
      → find q (update p f xs) ≡ some (f r)
  unfolding find update
  find-update_both p q f [] r hp hq pr qr = ground arith
  find-update_both p q f (x ∷ xs) r hp hq pr qr = elim (Bool-cases (p x)) [
    | inl e ↦ let same : x ≡ r = ground arith in rw (same, pr, qr) refl
    | inr e ↦ elim (Bool-cases (q x)) [
      | inl ex ↦ let same : x ≡ r = ground arith in ground (arith, rw same at e, pr)
      | inr ex ↦ rw (e, ex) (find-update_both p q f xs r (ground arith) (ground arith) pr qr)
    ]
  ]
