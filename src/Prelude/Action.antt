-- ===== src/Prelude/Action.antt =====
-- Statements on a state that return or raise. What was written before an exception stays written,
-- until `transaction` rolls it back, so the state comes back beside the exception too.
pub data Result {ℓ κ} (E : Type ℓ) (A : Type κ) : Type (ℓ ⊔ κ) where
  done : A → Result E A
  raised : E → Result E A

abbrev pub Action : Type 0 → Type 0 → Type 0 → Type 0
Action S E A = S → Result E A × S

module _ {S E : Type 0} where
  abbrev pub continue : {A B : Type 0} → Result E A → (A → Action S E B) → Action S E B
  continue (done a) f s = f a s
  continue (raised e) f s = (raised e, s)

  infixl 5 ◌>>=◌ ◌>>◌
  unfoldable pub ◌>>=◌ : {A B : Type 0} → Action S E A → (A → Action S E B) → Action S E B
  ◌>>=◌ m f s = let (r, s') = m s in continue r f s'

  abbrev pub ◌>>◌ : {B : Type 0} → Action S E (Unit {0}) → Action S E B → Action S E B
  m >> n = m >>= λ _. n

  abbrev pub pure : {A : Type 0} → A → Action S E A
  pure a s = (done a, s)

  abbrev pub throw : {A : Type 0} → E → Action S E A
  throw e s = (raised e, s)

  abbrev pub gets : {A : Type 0} → (S → A) → Action S E A
  gets f s = (done (f s), s)

  abbrev pub modify : (S → S) → Action S E (Unit {0})
  modify f s = (done tt, f s)

  abbrev pub commit_or_rollback : {A : Type 0} → Result E A → S → S → Result E A × S
  commit_or_rollback (done a) before after = (done a, after)
  commit_or_rollback (raised e) before after = (raised e, before)

  -- Commit on success, roll back on any exception.
  unfoldable pub transaction : {A : Type 0} → Action S E A → Action S E A
  transaction m s = let (r, s') = m s in commit_or_rollback r s s'

  abbrev pub cleaned_up : {A : Type 0} → Result E A → (S → S) → S → Result E A × S
  cleaned_up (done a) cleanup s = (done a, s)
  cleaned_up (raised e) cleanup s = (raised e, cleanup s)

  -- `except Exception: cleanup; raise`
  unfoldable pub on_error : {A : Type 0} → Action S E A → (S → S) → Action S E A
  on_error m cleanup s = let (r, s') = m s in cleaned_up r cleanup s'
