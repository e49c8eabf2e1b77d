-- ===== src/Prelude/ActionLaws.antt =====
-- Invariants of actions.
use mathlib.Core.Path.{◌≡◌, refl, subst, sym}
use mathlib.Core.Bool.{Bool, true, false}
use muse_agent_social.Prelude.Tests.{if◌then◌else◌}
use muse_agent_social.Prelude.Action.{
  Action, Result, done, raised, continue, commit_or_rollback, transaction, cleaned_up, on_error,
  ◌>>=◌,
}

-- `m` keeps `P`, whether it returns or raises.
pub record Keeps {S E : Type 0} (P : S → Type 0) {A : Type 0} (m : Action S E A) : Type 0 where
  pub at : (s : S) → P s → P (m s).1

module _ {S E : Type 0} {P : S → Type 0} {A B : Type 0} where
  continue-Keeps :
      (r : Result E A) (f : A → Action S E B) (s : S)
      → ((a : A) → Keeps P (f a))
      → P s
      → P (continue r f s).1
  continue-Keeps (done a) f s kf = (kf a).at s
  continue-Keeps (raised e) f s kf = λ h. h

  pub bind-Keeps :
      {m : Action S E A} {f : A → Action S E B}
      → Keeps P m
      → ((a : A) → Keeps P (f a))
      → Keeps P (m >>= f)
  unfolding ◌>>=◌
  bind-Keeps {m} {f} km kf = record { at = λ s h. continue-Keeps (m s).0 f (m s).1 kf (km.at s h) }

module _ {S E : Type 0} (P : S → Type 0) {A : Type 0} where
  rolled_back :
      (r : Result E A) (before after : S)
      → P before
      → P after
      → P (commit_or_rollback r before after).1
  rolled_back (done a) before after hb ha = ha
  rolled_back (raised e) before after hb ha = hb

  cleaned :
      (r : Result E A) (cleanup : S → S) (s : S)
      → ((t : S) → P t → P (cleanup t))
      → P s
      → P (cleaned_up r cleanup s).1
  cleaned (done a) cleanup s k h = h
  cleaned (raised e) cleanup s k h = k s h

module _ {S E : Type 0} {P : S → Type 0} {A : Type 0} where
  pub transaction-Keeps : {m : Action S E A} → Keeps P m → Keeps P (transaction m)
  unfolding transaction
  transaction-Keeps {m} km = record { at = λ s h. rolled_back P (m s).0 s (m s).1 h (km.at s h) }

  pub on_error-Keeps :
      {m : Action S E A} {cleanup : S → S}
      → Keeps P m
      → ((s : S) → P s → P (cleanup s))
      → Keeps P (on_error m cleanup)
  unfolding on_error
  on_error-Keeps {m} {cleanup} km kc = record {
    at = λ s h. cleaned P (m s).0 cleanup (m s).1 kc (km.at s h);
  }

  pub if-Keeps :
      (b : Bool) {m n : Action S E A} → Keeps P m → Keeps P n → Keeps P (if b then m else n)
  if-Keeps true km kn = km
  if-Keeps false km kn = kn

  -- Where the test reads the state.
  pub split-Keeps :
      (b : S → Bool) {m n : Action S E A}
      → Keeps P m
      → Keeps P n
      → Keeps P (λ s. if b s then m s else n s)
  split-Keeps b {m} {n} km kn = record { at = λ s. pick m n (b s) s (km.at s) (kn.at s) }
    where
      pick :
          (m n : Action S E A) (c : Bool) (s : S)
          → (P s → P (m s).1)
          → (P s → P (n s).1)
          → P s
          → P (if c then m s else n s).1
      pick m n true s f g = f
      pick m n false s f g = g

  -- Where each branch knows the outcome of its test.
  pub test-Keeps :
      (b : Bool) {m n : Action S E A}
      → (b ≡ true → Keeps P m)
      → (b ≡ false → Keeps P n)
      → Keeps P (if b then m else n)
  test-Keeps true km kn = km refl
  test-Keeps false km kn = kn refl

  -- An action that only reads.
  pub reads-Keeps : {r : S → Result E A} → Keeps P (λ s. (r s, s))
  reads-Keeps = record { at = λ s h. h }

module _ {S E V : Type 0} {view : S → V} (Q : V → Type 0) {A : Type 0} where
  -- An action that leaves a view alone keeps what the view shows.
  pub view-Keeps :
      {m : Action S E A} → ((s : S) → view (m s).1 ≡ view s) → Keeps (λ s. Q (view s)) m
  view-Keeps same = record { at = λ s h. subst Q (sym (same s)) h }
