-- ===== src/Prelude/Sets.antt =====
-- Sets of texts as lists without repetitions: a set within another of the same size is all of it.
use transcriber.Prelude.{
  ◌≤◌, ◌<◌, ◌≡◌, refl, Bool, true, not, String, List, [], ◌∷◌, ◌==◌, length, inl, inr, arith,
  Bool-cases, ==→≡, ==_refl,
}
use transcriber.Prelude.Table
use transcriber.Prelude.Table.Keys.{In, In-select, count_pos, exists_of_In}

abbrev pub is_text : String → String → Bool
is_text k x = x == k

abbrev pub IsUnique : List String → Type 0
IsUnique xs = (k : String) → Table.count (is_text k) xs ≤ 1

abbrev pub IsWithin : List String → List String → Type 0
IsWithin xs ys = (x : String) → In x xs → In x ys

abbrev pub without : String → List String → List String
without k xs = Table.select (λ x. not (x == k)) xs

length-without_le : (k : String) (xs : List String) → length (without k xs) ≤ length xs
unfolding Table.select
length-without_le k [] = omega arith
length-without_le k (x ∷ xs) = ground (arith, length-without_le k xs)

length-without_lt : (k : String) (xs : List String) → In k xs → length (without k xs) < length xs
unfolding Table.select
length-without_lt k [] i = absurd i
length-without_lt k (x ∷ xs) (inl same) =
    rw (same, ==_refl k) (omega (arith, length-without_le k xs))
length-without_lt k (x ∷ xs) (inr i) =
    ground (arith, length-without_lt k xs i, length-without_le k xs)

-- What is in a set but is not this element.
IsWithin-without :
    (k : String) (xs ys : List String) → IsWithin xs ys → (In k xs → ⊥) → IsWithin xs (without k ys)
IsWithin-without k xs ys within absent x i =
    In-select (λ y. not (y == k)) ys x (within x i)
      (elim (Bool-cases (x == k)) [ inl e ↦ absurd (absent (rw (← ==→≡ e) i)) | inr e ↦ rw e refl ])

tail-IsUnique : (x : String) (xs : List String) → IsUnique (x ∷ xs) → IsUnique xs
unfolding Table.count
tail-IsUnique x xs unique k = ground (arith, unique k)

head_absent : (x : String) (xs : List String) → IsUnique (x ∷ xs) → In x xs → ⊥
unfolding Table.count
head_absent x xs unique i =
    absurd (ground (arith, unique x, ==_refl x, count_pos (is_text x) xs i (==_refl x)))

pub length-IsWithin : (xs ys : List String) → IsUnique xs → IsWithin xs ys → length xs ≤ length ys
length-IsWithin [] ys unique within = omega arith
length-IsWithin (x ∷ xs) ys unique within =
    let rest = IsWithin-without x xs ys (λ y i. within y (inr i)) (head_absent x xs unique) in
    let smaller = length-IsWithin xs (without x ys) (tail-IsUnique x xs unique) rest in
    omega (arith, smaller, length-without_lt x ys (within x (inl refl)))

-- A set within another one of the same size is all of it.
pub IsWithin-all :
    (xs ys : List String)
    → IsUnique xs
    → IsWithin xs ys
    → length xs ≡ length ys
    → (y : String) → In y ys
    → Table.exists (is_text y) xs ≡ true
IsWithin-all xs ys unique within same y i = elim (Bool-cases (Table.exists (is_text y) xs)) [
  | inl e ↦ e
  | inr none_such ↦
      let absent : In y xs → ⊥ = λ j. cc (exists_of_In (is_text y) xs j (==_refl y), none_such) in
      let small =
        length-IsWithin xs (without y ys) unique (IsWithin-without y xs ys within absent) in
      absurd (omega (arith, small, same, length-without_lt y ys i))
]
