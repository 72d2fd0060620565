-- ===== src/Storage/Outbox/Rows.antt =====
-- The statements keep each waiting job's message, and the outbox grows.
use transcriber.Prelude.{
  ◌≡◌, refl, Bool, true, List, [], ◌∷◌, ◌++◌, map, arith, All, Bool-cases, inl, inr,
}
use transcriber.Prelude.Table
use transcriber.Prelude.Table.{Update}
use transcriber.Prelude.Table.Laws.{All-update}
use transcriber.Prelude.Table.Keys.{In}
use transcriber.Storage.Schema.{Job, Message, is_waiting}
use transcriber.Storage.Outbox.{is_message, HasMessage}

-- A row that waits after the statement waited before it, for the same message.
abbrev pub KeepsMessage : Update Job → Type 0
KeepsMessage u =
    (j : Job)
    → u.rows j ≡ true
    → is_waiting (u.set j).status ≡ true
    → (is_waiting j.status ≡ true)
      × ((u.set j).dispatch_id ≡ j.dispatch_id)
      × ((u.set j).job_id ≡ j.job_id)

pub execute-IsDispatched :
    (u : Update Job) (outbox : List Message) (jobs : List Job)
    → KeepsMessage u
    → All (HasMessage outbox) jobs
    → All (HasMessage outbox) (Table.execute u jobs)
execute-IsDispatched u outbox jobs keeps h =
    All-update (HasMessage outbox) u.rows u.set jobs
      (λ j sel has waits.
        let (before, message, id) = keeps j sel waits in rw (message, id) (has before))
      h

pub exists-append :
    {A : Type 0} (p : A → Bool) (xs ys : List A)
    → Table.exists p xs ≡ true
    → Table.exists p (xs ++ ys) ≡ true
unfolding Table.exists
exists-append p [] ys e = cc
exists-append p (x ∷ xs) ys e = ground (arith, exists-append p xs ys)

pub exists-snoc :
    {A : Type 0} (p : A → Bool) (xs : List A) (a : A)
    → p a ≡ true
    → Table.exists p (xs ++ a ∷ []) ≡ true
unfolding Table.exists
exists-snoc p [] a e = ground arith
exists-snoc p (x ∷ xs) a e = ground (arith, exists-snoc p xs a)

pub exists-append_right :
    {A : Type 0} (p : A → Bool) (xs ys : List A)
    → Table.exists p ys ≡ true
    → Table.exists p (xs ++ ys) ≡ true
unfolding Table.exists
exists-append_right p [] ys e = e
exists-append_right p (x ∷ xs) ys e = ground (arith, exists-append_right p xs ys)

-- A row that is made of a selected row.
pub exists-map-select :
    {A B : Type 0} (q : B → Bool) (f : A → B) (p : A → Bool) (xs : List A) {a : A}
    → In a xs
    → p a ≡ true
    → q (f a) ≡ true
    → Table.exists q (map f (Table.select p xs)) ≡ true
unfolding Table.exists Table.select
exists-map-select q f p [] i sel e = absurd i
exists-map-select q f p (x ∷ xs) (inl same) sel e = rw (same, sel, e)
exists-map-select q f p (x ∷ xs) (inr i) sel e = elim (Bool-cases (p x)) [
  | inl r ↦ rw r (ground (arith, exists-map-select q f p xs i sel e))
  | inr r ↦ rw r (exists-map-select q f p xs i sel e)
]

-- A statement that changes nothing that the test reads.
pub exists-update :
    {A : Type 0} (q p : A → Bool) (f : A → A) (xs : List A)
    → ((x : A) → q (f x) ≡ q x)
    → Table.exists q (Table.update p f xs) ≡ Table.exists q xs
unfolding Table.exists Table.update
exists-update q p f [] same = refl
exists-update q p f (x ∷ xs) same = ground (arith, same x, exists-update q p f xs same)

pub exists-select :
    {A : Type 0} (q p : A → Bool) (xs : List A)
    → ((x : A) → q x ≡ true → p x ≡ true)
    → Table.exists q (Table.select p xs) ≡ Table.exists q xs
unfolding Table.exists Table.select
exists-select q p [] keep = refl
exists-select q p (x ∷ xs) keep = ground (arith, keep x, exists-select q p xs keep)

-- More messages serve the jobs as well.
pub All-HasMessage_mono :
    (outbox outbox' : List Message) (jobs : List Job)
    → ((j : Job)
        → Table.exists (is_message j.dispatch_id j.job_id) outbox ≡ true
        → Table.exists (is_message j.dispatch_id j.job_id) outbox' ≡ true)
    → All (HasMessage outbox) jobs
    → All (HasMessage outbox') jobs
All-HasMessage_mono outbox outbox' [] more h = tt
All-HasMessage_mono outbox outbox' (j ∷ jobs) more h =
    ((λ waits. more j (h.0 waits)), All-HasMessage_mono outbox outbox' jobs more h.1)
