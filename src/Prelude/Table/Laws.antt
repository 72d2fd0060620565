-- ===== src/Prelude/Table/Laws.antt =====
-- How a statement changes the rows that another statement reads.
use Prim.Native.Nat.{◌+◌, ◌≤◌}
use mathlib.Core.Path.{◌≡◌, refl}
use mathlib.Core.Logic.{inl, inr}
use mathlib.Core.Bool.{Bool, true, false}
use mathlib.Core.Option
use mathlib.Core.Option.{Option, none, some}
use mathlib.Core.List.{List, [], ◌∷◌, ◌++◌}
use native.Mathlib.Omega.{arith}
use transcriber.Prelude.Tests.{if◌then◌else◌, Bool-cases}
use transcriber.Prelude.Lists.{All}
use transcriber.Prelude.Table.{update, select, count, exists, find}

-- What a statement makes of the rows that it selects, and of the others.
pub All-update_to {ℓ κ μ} :
    {A : Type ℓ} (P : A → Type κ) (Q : A → Type μ) (p : A → Bool) (f : A → A) (xs : List A)
    → ((x : A) → p x ≡ true → P x → Q (f x))
    → ((x : A) → p x ≡ false → P x → Q x)
    → All P xs
    → All Q (update p f xs)
unfolding update
All-update_to P Q p f [] hit miss h = tt
All-update_to P Q p f (x ∷ xs) hit miss h = elim (Bool-cases (p x)) [
  | inl e ↦ rw e (hit x e h.0, All-update_to P Q p f xs hit miss h.1)
  | inr e ↦ rw e (miss x e h.0, All-update_to P Q p f xs hit miss h.1)
]

module _ {ℓ κ} {A : Type ℓ} (P : A → Type κ) where
  pub All-update :
      (p : A → Bool) (f : A → A) (xs : List A)
      → ((x : A) → p x ≡ true → P x → P (f x))
      → All P xs
      → All P (update p f xs)
  All-update p f xs keep = All-update_to P P p f xs keep (λ x _ h. h)

  pub All-select : (p : A → Bool) (xs : List A) → All P xs → All P (select p xs)
  unfolding select
  All-select p [] h = tt
  All-select p (x ∷ xs) h = elim (Bool-cases (p x)) [
    | inl e ↦ rw e (h.0, All-select p xs h.1)
    | inr e ↦ rw e (All-select p xs h.1)
  ]

  -- A row that is found is in the table, and is one that was asked for.
  pub All-find :
      (p : A → Bool) (xs : List A) {x : A} → All P xs → find p xs ≡ some x → P x × (p x ≡ true)
  unfolding find
  All-find p [] h e = cc
  All-find p (y ∷ xs) {x} h e = elim (Bool-cases (p y)) [
    | inl q ↦ let same : y ≡ x = ground (arith, q) in rw (← same) (h.0, q)
    | inr q ↦ All-find p xs h.1 (ground (arith, q))
  ]

module _ {ℓ} {A : Type ℓ} where
  -- A statement that turns no row into one that `q` counts does not raise the count.
  pub count-update_le :
      (q p : A → Bool) (f : A → A) (xs : List A)
      → ((x : A) → p x ≡ true → q (f x) ≡ true → q x ≡ true)
      → count q (update p f xs) ≤ count q xs
  unfolding count update
  count-update_le q p f [] keep = omega arith
  count-update_le q p f (x ∷ xs) keep = ground (arith, keep x, count-update_le q p f xs keep)

  -- It raises the count by no more than the rows that it changes.
  pub count-update_add :
      (q p : A → Bool) (f : A → A) (xs : List A) → count q (update p f xs) ≤ count q xs + count p xs
  unfolding count update
  count-update_add q p f [] = omega arith
  count-update_add q p f (x ∷ xs) = ground (arith, count-update_add q p f xs)

  -- A statement that changes nothing that `q` reads leaves the count.
  pub count-update_eq :
      (q p : A → Bool) (f : A → A) (xs : List A)
      → ((x : A) → q (f x) ≡ q x)
      → count q (update p f xs) ≡ count q xs
  unfolding count update
  count-update_eq q p f [] same = refl
  count-update_eq q p f (x ∷ xs) same = ground (arith, same x, count-update_eq q p f xs same)

  pub count-select_le : (q p : A → Bool) (xs : List A) → count q (select p xs) ≤ count q xs
  unfolding count select
  count-select_le q p [] = omega arith
  count-select_le q p (x ∷ xs) = ground (arith, count-select_le q p xs)

  pub count-append : (q : A → Bool) (xs ys : List A) → count q (xs ++ ys) ≡ count q xs + count q ys
  unfolding count
  count-append q [] ys = omega arith
  count-append q (x ∷ xs) ys = ground (arith, count-append q xs ys)

  -- What is counted under a stricter test is no more.
  pub count_mono :
      (q r : A → Bool) (xs : List A) → ((x : A) → q x ≡ true → r x ≡ true) → count q xs ≤ count r xs
  unfolding count
  count_mono q r [] weaker = omega arith
  count_mono q r (x ∷ xs) weaker = ground (arith, weaker x, count_mono q r xs weaker)

  pub count-zero_of_exists : (q : A → Bool) (xs : List A) → exists q xs ≡ false → count q xs ≡ 0
  unfolding count exists
  count-zero_of_exists q [] h = refl
  count-zero_of_exists q (x ∷ xs) h = ground (arith, count-zero_of_exists q xs)

  pub count-zero_of_find : (q : A → Bool) (xs : List A) → find q xs ≡ none → count q xs ≡ 0
  unfolding count find
  count-zero_of_find q [] h = refl
  count-zero_of_find q (x ∷ xs) h = ground (arith, count-zero_of_find q xs)

  -- A statement whose WHERE selects no row changes nothing.
  pub update_none : (p : A → Bool) (f : A → A) (xs : List A) → count p xs ≡ 0 → update p f xs ≡ xs
  unfolding count update
  update_none p f [] h = refl
  update_none p f (x ∷ xs) h = ground (arith, update_none p f xs)

  -- Reading a key back after an update that leaves the keys alone.
  pub find-update :
      (q p : A → Bool) (f : A → A) (xs : List A)
      → ((x : A) → q (f x) ≡ q x)
      → find q (update p f xs) ≡ Option.map (λ x. if p x then f x else x) (find q xs)
  unfolding find update
  find-update q p f [] same = refl
  find-update q p f (x ∷ xs) same = ground (arith, same x, find-update q p f xs same)

  pub find_sound : (q : A → Bool) (xs : List A) {x : A} → find q xs ≡ some x → q x ≡ true
  find_sound q xs e = (All-find (λ _. Unit {0}) q xs (trivial xs) e).1
    where
      trivial : (ys : List A) → All (λ _. Unit {0}) ys
      trivial [] = tt
      trivial (y ∷ ys) = (tt, trivial ys)
