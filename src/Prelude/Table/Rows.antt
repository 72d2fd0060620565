-- ===== src/Prelude/Table/Rows.antt =====
-- The row with a key in a longer table, and in one that has lost rows.
use Prim.Native.Nat.{◌≤◌}
use mathlib.Core.Path.{◌≡◌}
use mathlib.Core.Logic.{inl, inr}
use mathlib.Core.Bool.{Bool, true, false}
use mathlib.Core.Option.{some}
use mathlib.Core.List.{List, [], ◌∷◌, ◌++◌}
use native.Mathlib.Omega.{arith}
use transcriber.Prelude.Tests.{Bool-cases}
use transcriber.Prelude.Table.{select, count, find}
use transcriber.Prelude.Table.Laws.{count-select_le}

module _ {ℓ} {A : Type ℓ} where
  pub find-append :
      (p : A → Bool) (xs ys : List A) {a : A} → find p xs ≡ some a → find p (xs ++ ys) ≡ some a
  unfolding find
  find-append p [] ys e = cc
  find-append p (x ∷ xs) ys {a} e = ground (arith, find-append p xs ys {a = a})

  pub find-select_kept :
      (q p : A → Bool) (xs : List A) (a : A)
      → find q xs ≡ some a
      → p a ≡ true
      → find q (select p xs) ≡ some a
  unfolding find select
  find-select_kept q p [] a e h = cc
  find-select_kept q p (x ∷ xs) a e h = elim (Bool-cases (q x)) [
    | inl here ↦ let same : x ≡ a = cc (rw here at e) in rw (same, h) (rw (← same) (rw here))
    | inr there ↦ ground (arith, there, find-select_kept q p xs a (rw there at e) h)
  ]

  pub count-select_gone :
      (q p : A → Bool) (xs : List A) (a : A)
      → count q xs ≤ 1
      → find q xs ≡ some a
      → p a ≡ false
      → count q (select p xs) ≡ 0
  unfolding find select count
  count-select_gone q p [] a one e h = cc
  count-select_gone q p (x ∷ xs) a one e h = elim (Bool-cases (q x)) [
    | inl here ↦
        let same : x ≡ a = cc (rw here at e) in
        rw (same, h)
          (omega
            (arith, count-select_le q p xs, let few : count q xs ≤ 0 = ground (arith, here) in few))
    | inr there ↦
        ground (arith, there, count-select_gone q p xs a (ground (arith, there)) (rw there at e) h)
  ]
