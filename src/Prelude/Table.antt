-- ===== src/Prelude/Table.antt =====
-- A database table as the list of its rows: what the statements of whisper/sql do to one.
pub mod Laws
pub mod Keys
pub mod Rows
use Prim.Native.Nat.{ℕ, suc}
use mathlib.Core.Bool.{Bool, true, false, ◌||◌}
use mathlib.Core.Option.{Option, none, some}
use mathlib.Core.List.{List, [], ◌∷◌}
use transcriber.Prelude.Tests.{if◌then◌else◌}

-- An UPDATE statement: its WHERE, and its SET on one row.
pub record Update {ℓ} (A : Type ℓ) : Type ℓ where
  pub rows : A → Bool
  pub set : A → A

module _ {ℓ} {A : Type ℓ} where
  -- UPDATE t SET f WHERE p
  unfoldable pub update : (A → Bool) → (A → A) → List A → List A
  update p f [] = []
  update p f (x ∷ xs) = (if p x then f x else x) ∷ update p f xs

  -- SELECT * FROM t WHERE p
  unfoldable pub select : (A → Bool) → List A → List A
  select p [] = []
  select p (x ∷ xs) = let rest = select p xs in if p x then x ∷ rest else rest

  -- SELECT COUNT(*) FROM t WHERE p
  unfoldable pub count : (A → Bool) → List A → ℕ
  count p [] = 0
  count p (x ∷ xs) = let rest = count p xs in if p x then suc rest else rest

  -- EXISTS (SELECT 1 FROM t WHERE p)
  unfoldable pub exists : (A → Bool) → List A → Bool
  exists p [] = false
  exists p (x ∷ xs) = p x || exists p xs

  -- the row that a WHERE on a key selects
  unfoldable pub find : (A → Bool) → List A → Option A
  find p [] = none
  find p (x ∷ xs) = let rest = find p xs in if p x then some x else rest

  -- SELECT * FROM t WHERE p ORDER BY the key of `before` LIMIT 1: `before x y` puts x first
  unfoldable pub first_by : (A → A → Bool) → (A → Bool) → List A → Option A
  first_by before p [] = none
  first_by before p (x ∷ xs) =
      let rest = first_by before p xs in
      if p x
      then elim rest [ none ↦ some x | some y ↦ some (if before y x then y else x) ]
      else rest

  -- Running a statement, and its `rowcount`.
  abbrev pub execute : Update A → List A → List A
  execute u xs = update u.rows u.set xs

  abbrev pub row_count : Update A → List A → ℕ
  row_count u xs = count u.rows xs
