-- ===== src/Prelude/Table/Keys.antt =====
-- Tables with a unique key: a statement on one key changes the row that was read, and no other.
use Prim.Native.Nat.{◌≤◌}
use mathlib.Core.Path.{◌≡◌, refl}
use mathlib.Core.Logic.{◌⊎◌, inl, inr}
use mathlib.Core.Bool.{Bool, true, false}
use mathlib.Core.Option.{some}
use mathlib.Core.List.{List, [], ◌∷◌, ◌++◌}
use Prim.Native.String.{String}
use native.Mathlib.Omega.{arith}
use text.Mathlib.Text.{◌==◌}
use transcriber.Prelude.Tests.{Bool-cases, ==→≡}
use transcriber.Prelude.Lists.{All}
use transcriber.Prelude.Table.{update, select, count, exists, find, first_by}
use transcriber.Prelude.Table.Laws.{update_none, count-append}

-- The row stands in the table.
abbrev pub In : {A : Type 0} → A → List A → Type 0
In a [] = ⊥
In a (x ∷ xs) = (x ≡ a) ⊎ In a xs

module _ {A : Type 0} where
  pub In-find : (p : A → Bool) (xs : List A) {a : A} → find p xs ≡ some a → In a xs
  unfolding find
  In-find p [] e = cc
  In-find p (x ∷ xs) {a} e = elim (Bool-cases (p x)) [
    | inl q ↦ inl (ground (arith, q))
    | inr q ↦ inr (In-find p xs {a = a} (ground (arith, q)))
  ]

  pub In-first_by :
      (before : A → A → Bool) (p : A → Bool) (xs : List A) {a : A}
      → first_by before p xs ≡ some a
      → In a xs × (p a ≡ true)
  unfolding first_by
  In-first_by before p [] e = cc
  In-first_by before p (x ∷ xs) {a} e = ground (arith, In-first_by before p xs {a = a})

  pub count_pos : (p : A → Bool) (xs : List A) {a : A} → In a xs → p a ≡ true → 1 ≤ count p xs
  unfolding count
  count_pos p [] i e = absurd i
  count_pos p (x ∷ xs) {a} (inl same) e = ground (arith)
  count_pos p (x ∷ xs) {a} (inr i) e = ground (arith, count_pos p xs i e)

  -- A test that no row of the table passes.
  pub count-zero_of_In :
      (q : A → Bool) (xs : List A) → ((x : A) → In x xs → q x ≡ false) → count q xs ≡ 0
  unfolding count
  count-zero_of_In q [] no_row = refl
  count-zero_of_In q (x ∷ xs) no_row =
      ground (arith, no_row x (inl refl), count-zero_of_In q xs (λ j i. no_row j (inr i)))

  -- Where a key is unique, the row with it is the row that is found.
  pub find-In :
      (p : A → Bool) (xs : List A) {a : A}
      → count p xs ≤ 1
      → In a xs
      → p a ≡ true
      → find p xs ≡ some a
  unfolding find count
  find-In p [] u i e = absurd i
  find-In p (x ∷ xs) {a} u (inl same) e = ground (arith)
  find-In p (x ∷ xs) {a} u (inr i) e = ground (arith, find-In p xs {a = a}, count_pos p xs i e)

  pub exists_of_find :
      (p : A → Bool) (xs : List A) {a : A} → find p xs ≡ some a → exists p xs ≡ true
  unfolding find exists
  exists_of_find p [] e = cc
  exists_of_find p (x ∷ xs) {a} e = ground (arith, exists_of_find p xs {a = a})

  pub exists_of_In :
      (p : A → Bool) (xs : List A) {a : A} → In a xs → p a ≡ true → exists p xs ≡ true
  unfolding exists
  exists_of_In p [] i e = absurd i
  exists_of_In p (x ∷ xs) (inl same) e = ground arith
  exists_of_In p (x ∷ xs) (inr i) e = ground (arith, exists_of_In p xs i e)

  pub exists-In :
      (p : A → Bool) (xs : List A) → exists p xs ≡ true → (a : A) × In a xs × (p a ≡ true)
  unfolding exists
  exists-In p [] e = cc
  exists-In p (x ∷ xs) e = elim (Bool-cases (p x)) [
    | inl q ↦ (x, inl refl, q)
    | inr q ↦ let (a, i, r) = exists-In p xs (ground (arith, q)) in (a, inr i, r)
  ]

  pub In-update_other :
      (p : A → Bool) (f : A → A) (xs : List A) (x : A)
      → In x xs
      → p x ≡ false
      → In x (update p f xs)
  unfolding update
  In-update_other p f [] x i e = absurd i
  In-update_other p f (y ∷ xs) x (inl same) e = inl (ground arith)
  In-update_other p f (y ∷ xs) x (inr i) e = inr (In-update_other p f xs x i e)

  pub In-select : (p : A → Bool) (xs : List A) (x : A) → In x xs → p x ≡ true → In x (select p xs)
  unfolding select
  In-select p [] x i e = absurd i
  In-select p (y ∷ xs) x (inl same) e = rw (same, e) (inl refl)
  In-select p (y ∷ xs) x (inr i) e = elim (Bool-cases (p y)) [
    | inl q ↦ rw q (inr (In-select p xs x i e))
    | inr q ↦ rw q (In-select p xs x i e)
  ]

  pub In-select_inv :
      (p : A → Bool) (xs : List A) (x : A) → In x (select p xs) → In x xs × (p x ≡ true)
  unfolding select
  In-select_inv p [] x i = absurd i
  In-select_inv p (y ∷ xs) x i = elim (Bool-cases (p y)) [
    | inl q ↦ elim (rw q at i) [
      | inl same ↦ (inl same, rw (← same) q)
      | inr later ↦ let (there, ok) = In-select_inv p xs x later in (inr there, ok)
    ]
    | inr q ↦ let (there, ok) = In-select_inv p xs x (rw q at i) in (inr there, ok)
  ]

  pub All-In {κ} : (P : A → Type κ) (xs : List A) {a : A} → All P xs → In a xs → P a
  All-In P [] h i = absurd i
  All-In P (x ∷ xs) h (inl same) = rw (← same) h.0
  All-In P (x ∷ xs) h (inr i) = All-In P xs h.1 i

  pub All-refine {κ μ} :
      (P : A → Type κ) (Q : A → Type μ) (xs : List A)
      → ((a : A) → In a xs → P a → Q a)
      → All P xs
      → All Q xs
  All-refine P Q [] step h = tt
  All-refine P Q (x ∷ xs) step h =
      (step x (inl refl) h.0, All-refine P Q xs (λ a i. step a (inr i)) h.1)

  -- A statement on a unique key: what it makes of the row that was found is all there is to prove.
  pub All-update_found {κ} :
      (P : A → Type κ) (p : A → Bool) (f : A → A) (xs : List A) {a : A}
      → count p xs ≤ 1
      → find p xs ≡ some a
      → P (f a)
      → All P xs
      → All P (update p f xs)
  unfolding find update count
  All-update_found P p f [] u e new h = tt
  All-update_found P p f (x ∷ xs) {a} u e new h = elim (Bool-cases (p x)) [
    | inl q ↦
        let same : x ≡ a = ground (arith, q) in
        rw q (rw same new, rw (update_none p f xs (ground (arith, q))) h.1)
    | inr q ↦
        rw q
          (h.0, All-update_found P p f xs {a = a} (ground (arith, q)) (ground (arith, q)) new h.1)
  ]

module _ {A : Type 0} (key : A → String) where
  -- A new row under a key that no row has keeps the key unique.
  pub unique-append :
      (xs : List A) (a : A) (k : String)
      → (key a ≡ k → count (λ x. key x == k) xs ≡ 0)
      → count (λ x. key x == k) xs ≤ 1
      → count (λ x. key x == k) (xs ++ a ∷ []) ≤ 1
  unfolding count
  unique-append xs a k fresh u = elim (Bool-cases (key a == k)) [
    | inl q ↦ rw count-append (rw q (omega (arith, fresh (==→≡ q))))
    | inr q ↦ rw count-append (rw q (omega arith))
  ]
