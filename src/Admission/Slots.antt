-- ===== src/Admission/Slots.antt =====
-- What an upload of whisper/admission.py leaves once it has ended, or its process has died.
use transcriber.Prelude.{
  ℕ, ◌≡◌, ◌∙◌, ◌⊎◌, refl, Bool, true, false, not, String, List, [], ◌∷◌, ◌==◌, arith, ap, ==_refl,
  inl, inr, leb, none, some, if◌then◌else◌,
}
use transcriber.Prelude.Table
use transcriber.Prelude.Table.Laws.{count-select_le, update_none}
use transcriber.Prelude.Results.{ok, err}
use transcriber.Admission.{Volume, UploadLimits, Token, too_many_uploads}
use transcriber.Admission
use transcriber.Admission.Bounds.{crash}

select_again :
    {A : Type 0} (p : A → Bool) (xs : List A)
    → Table.select p (Table.select p xs) ≡ Table.select p xs
unfolding Table.select
select_again p [] = refl
select_again p (x ∷ xs) = ground (arith, select_again p xs)

count-select_same :
    {A : Type 0} (p : A → Bool) (xs : List A) → Table.count p (Table.select p xs) ≡ Table.count p xs
unfolding Table.select Table.count
count-select_same p [] = refl
count-select_same p (x ∷ xs) = ground (arith, count-select_same p xs)

select_without :
    {A : Type 0} (p : A → Bool) (xs : List A)
    → Table.count p xs ≡ 0
    → Table.select (λ x. not (p x)) xs ≡ xs
unfolding Table.select Table.count
select_without p [] e = refl
select_without p (x ∷ xs) e = ground (arith, select_without p xs)

-- The sweep of the tokens reads only which are held.
active_uploads-swept :
    (v : Volume) (slots : List Token)
    → Table.select (λ (t : Token). t.held) slots ≡ Table.select (λ (t : Token). t.held) v.slots
    → Admission.active_uploads (record v { slots = slots }) ≡ Admission.active_uploads v
unfolding Admission.active_uploads
active_uploads-swept v slots e =
    let held = λ (t : Token). t.held in
    let same : Table.count held slots ≡ Table.count held v.slots =
      ground (arith, e, count-select_same held slots, count-select_same held v.slots) in
    rw (e, same) refl

-- The tokens that the sweep of an `upload` leaves.
abbrev swept : Volume → List Token
swept v = Table.select (λ (t : Token). t.held) v.slots

abbrev own : String → Token
own token = record { path = token; held = true }

upload-slots :
    (limits : UploadLimits) (token : String) (v : Volume)
    → ((Admission.upload limits token v).0 ≡ record v { slots = swept v })
      ⊎ ((Admission.upload limits token v).0 ≡ record v { slots = own token ∷ swept v })
unfolding Admission.upload Admission.active_uploads
upload-slots limits token v = ground arith

upload-swept :
    (limits : UploadLimits) (token : String) (v : Volume) (slots : List Token)
    → Table.select (λ (t : Token). t.held) slots ≡ swept v
    → Admission.upload limits token (record v { slots = slots }) ≡ Admission.upload limits token v
unfolding Admission.upload
upload-swept limits token v slots e =
    ap
      (λ (active : ℕ × Volume).
        if leb limits.concurrent_uploads active.0
        then (active.1, err too_many_uploads)
        else elim (Admission.check_capacity limits 0 active.1) [
          | some e ↦ (active.1, err e)
          | none ↦ (record active.1 { slots = own token ∷ active.1.slots }, ok token)
        ])
      (active_uploads-swept v slots e)

module _ (token : String) (v : Volume)
    (fresh : Table.count (λ (t : Token). t.path == token) v.slots ≡ 0) where
  swept_without : Table.count (λ (t : Token). t.path == token) (swept v) ≡ 0
  swept_without = omega (
    arith,
    fresh,
    count-select_le (λ (t : Token). t.path == token) (λ (t : Token). t.held) v.slots,
  )

  crashed-swept :
      (slots : List Token)
      → (slots ≡ swept v) ⊎ (slots ≡ own token ∷ swept v)
      → Table.select
          (λ (t : Token). t.held)
          (Table.update (λ t. t.path == token) (λ t. record t { held = false }) slots)
        ≡ swept v
  unfolding Table.select Table.update
  crashed-swept slots (inl e) =
      rw
        (
          e,
          update_none (λ (t : Token). t.path == token) (λ t. record t { held = false }) (swept v)
              swept_without,
        )
        (select_again (λ (t : Token). t.held) v.slots)
  crashed-swept slots (inr e) =
      rw
        (
          e,
          ==_refl token,
          update_none (λ (t : Token). t.path == token) (λ t. record t { held = false }) (swept v)
              swept_without,
        )
        (select_again (λ (t : Token). t.held) v.slots)

  finished-swept :
      (slots : List Token)
      → (slots ≡ swept v) ⊎ (slots ≡ own token ∷ swept v)
      → Table.select (λ (t : Token). t.held) (Table.select (λ t. not (t.path == token)) slots)
        ≡ swept v
  unfolding Table.select
  finished-swept slots (inl e) =
      rw (e, select_without (λ (t : Token). t.path == token) (swept v) swept_without)
        (select_again (λ (t : Token). t.held) v.slots)
  finished-swept slots (inr e) =
      rw (e, ==_refl token, select_without (λ (t : Token). t.path == token) (swept v) swept_without)
        (select_again (λ (t : Token). t.held) v.slots)

  -- Whether an upload with a token that is not in the directory begins or is refused, and whatever
  -- has been written since, as long as the directory of tokens is as it left it: once its process has
  -- died, or has run its `finally`, the next upload, whichever its token, is answered as if that one
  -- had not been, and leaves the same volume, so that its slot and its token are given back.
  pub upload-gives_back :
      (limits : UploadLimits) (later : String) (w : Volume)
      → w.slots ≡ (Admission.upload limits token v).0.slots
      → (Admission.upload limits later (crash token w)
          ≡ Admission.upload limits later (record w { slots = v.slots }))
        × (Admission.upload limits later (Admission.finish_upload token w)
            ≡ Admission.upload limits later (record w { slots = v.slots }))
  unfolding Admission.finish_upload
  upload-gives_back limits later w left =
      let slots : (w.slots ≡ swept v) ⊎ (w.slots ≡ own token ∷ swept v) =
        elim (upload-slots limits token v) [
          | inl e ↦ inl (left ∙ ap (λ (x : Volume). x.slots) e)
          | inr e ↦ inr (left ∙ ap (λ (x : Volume). x.slots) e)
        ] in
      (
        upload-swept limits later (record w { slots = v.slots }) _ (crashed-swept w.slots slots),
        upload-swept limits later (record w { slots = v.slots }) _ (finished-swept w.slots slots),
      )
