-- ===== src/Prelude/Table.antt =====
-- SQL tables as lists of rows in the order of insertion, with the statements that the stores run.
use Prim.Native.Nat.{ℕ, ◌+◌}
use mathlib.Core.Bool.{Bool, false, not, ◌||◌}
use mathlib.Core.Option.{Option, none, some}
use mathlib.Core.List.{List, [], ◌∷◌, ◌++◌}
use muse_agent_social.Prelude.Tests.{if◌then◌else◌}

module _ {ℓ} {A : Type ℓ} where
  -- SELECT … WHERE p, and fetchone().
  unfoldable pub find : (A → Bool) → List A → Option A
  find p [] = none
  find p (x ∷ xs) = if p x then some x else find p xs

  -- SELECT 1 … WHERE p: is there a row?
  unfoldable pub exists : (A → Bool) → List A → Bool
  exists p [] = false
  exists p (x ∷ xs) = p x || exists p xs

  -- SELECT … WHERE p, and fetchall().
  unfoldable pub select : (A → Bool) → List A → List A
  select p [] = []
  select p (x ∷ xs) = let rest = select p xs in if p x then x ∷ rest else rest

  -- SELECT COUNT(*) … WHERE p.
  unfoldable pub count : (A → Bool) → List A → ℕ
  count p [] = 0
  count p (x ∷ xs) = (if p x then 1 else 0) + count p xs

  -- INSERT: a new row at the end.
  abbrev pub insert : A → List A → List A
  insert x xs = xs ++ x ∷ []

  -- UPDATE … WHERE the primary key, or all of a unique index: one row at most.
  unfoldable pub update : (A → Bool) → (A → A) → List A → List A
  update p f [] = []
  update p f (x ∷ xs) = let rest = update p f xs in if p x then f x ∷ xs else x ∷ rest

  -- DELETE … WHERE p.
  abbrev pub delete : (A → Bool) → List A → List A
  delete p xs = select (λ x. not (p x)) xs

  -- INSERT OR IGNORE, where `p` finds the rows that carry the new row's key.
  abbrev pub insert_or_ignore : (A → Bool) → A → List A → List A
  insert_or_ignore p x xs = if exists p xs then xs else insert x xs

  -- INSERT … ON CONFLICT DO UPDATE.
  abbrev pub upsert : (A → Bool) → (A → A) → A → List A → List A
  upsert p f x xs = if exists p xs then update p f xs else insert x xs
