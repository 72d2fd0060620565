-- ===== src/WorkerAuth/Identity.antt =====
-- Whom a bearer token identifies.
use Prim.Native.String
use Prim.Native.String.{◌++◌, slice, len}
use text.Mathlib.Text.{starts_with}
use text.Mathlib.TextPositions.{starts_with-append, slice-append_right, len-append}
use transcriber.Prelude.{
  ◌≤◌, ◌≡◌, refl, true, false, String, Option, none, some, List, [], ◌∷◌, ◌==◌, arith, Bool-cases,
  inl, inr, ==→≡, ==_refl, eq_iff, ◌⊎◌, if◌then◌else◌,
}
use transcriber.Prelude.Table
use transcriber.Prelude.Table.Laws.{count-zero_of_exists}
use transcriber.Prelude.Table.Keys.{In}
use transcriber.WorkerAuth
use transcriber.WorkerAuth.{is_token, identify, authenticate, is_registry, are_distinct, has_digest}

identify_sound :
    (digest id : String) (identity : Option String) (hashes : List (String × String))
    → identify digest identity hashes ≡ some id
    → (identity ≡ some id) ⊎ In (id, digest) hashes
unfolding WorkerAuth.identify
identify_sound digest id identity [] e = inl e
identify_sound digest id identity ((worker_id, expected) ∷ rest) e =
    elim (identify_sound digest id (if digest == expected then some worker_id else identity) rest
      e) [
        | inr later ↦ inr (inr later)
        | inl chosen ↦ elim (Bool-cases (digest == expected)) [
          | inl same ↦
              let own : worker_id ≡ id = ground (arith, chosen, same) in
              inr (inl (rw (own, ==→≡ same) refl))
          | inr other ↦ inl (ground (arith, chosen, other))
        ]
      ]

-- A loop over entries without the digest.
identify-other :
    (digest : String) (identity : Option String) (hashes : List (String × String))
    → Table.count (has_digest digest) hashes ≡ 0
    → identify digest identity hashes ≡ identity
unfolding WorkerAuth.identify Table.count
identify-other digest identity [] none_left = refl
identify-other digest identity ((worker_id, expected) ∷ rest) none_left = ground (
  arith,
  none_left,
  eq_iff digest expected,
  eq_iff expected digest,
  identify-other digest identity rest,
)

identify_complete :
    (digest id : String) (identity : Option String) (hashes : List (String × String))
    → Table.count (has_digest digest) hashes ≤ 1
    → In (id, digest) hashes
    → identify digest identity hashes ≡ some id
unfolding WorkerAuth.identify Table.count
identify_complete digest id identity [] unique i = absurd i
identify_complete digest id identity ((worker_id, expected) ∷ rest) unique (inl same) =
    ground (arith, same, unique, ==_refl digest, identify-other digest (some worker_id) rest)
identify_complete digest id identity ((worker_id, expected) ∷ rest) unique (inr i) =
    identify_complete digest id (if digest == expected then some worker_id else identity) rest
      (ground (arith, unique)) i

are_distinct_unique :
    (digest : String) (hashes : List (String × String))
    → are_distinct hashes ≡ true
    → Table.count (has_digest digest) hashes ≤ 1
unfolding WorkerAuth.are_distinct Table.count
are_distinct_unique digest [] e = omega arith
are_distinct_unique digest ((worker_id, expected) ∷ rest) e =
    elim (Bool-cases (expected == digest)) [
      | inl same ↦
          let key : expected ≡ digest = ==→≡ same in
          let gone = count-zero_of_exists (has_digest digest) rest in
          let fresh : Table.exists (has_digest expected) rest ≡ false = ground (arith, e) in
          rw same (omega (arith, gone (rw key at fresh)))
      | inr other ↦ rw other (are_distinct_unique digest rest (ground (arith, e)))
    ]

module _ (sha256 : String → String) (hashes : List (String × String)) where
  -- A header that is accepted as a worker's is a bearer header whose token has 32 to 512 printable
  -- characters, and the registry has that worker under the token's hash.
  pub authenticate-registered :
      (authorization : Option String) (id : String)
      → authenticate sha256 hashes authorization ≡ some id
      → (header : String) × (authorization ≡ some header)
        × (starts_with header "Bearer " ≡ true)
        × (is_token (slice header 7 (len header)) ≡ true)
        × In (id, sha256 (slice header 7 (len header))) hashes
  unfolding WorkerAuth.authenticate
  authenticate-registered none id e = cc
  authenticate-registered (some header) id e = elim (Bool-cases (starts_with header "Bearer ")) [
    | inr other ↦ cc (rw other at e)
    | inl bearer ↦ elim (Bool-cases (is_token (slice header 7 (len header)))) [
      | inr weak ↦ cc (rw (bearer, weak) at e)
      | inl strong ↦ (
        header,
        refl,
        bearer,
        strong,
        elim (identify_sound (sha256 (slice header 7 (len header))) id none hashes
            (rw (bearer, strong) at e)) [ inl nobody ↦ cc | inr i ↦ i ],
      )
    ]
  ]

  -- Under a valid registry, a bearer header with a token of 32 to 512 printable characters whose hash
  -- the registry has is accepted as the worker that it has it for.
  pub authenticate-bearer :
      (token id : String)
      → is_registry hashes ≡ true
      → is_token token ≡ true
      → In (id, sha256 token) hashes
      → authenticate sha256 hashes (some (String.◌++◌ "Bearer " token)) ≡ some id
  unfolding WorkerAuth.authenticate WorkerAuth.is_registry
  authenticate-bearer token id registry strong i =
      let rest : slice ("Bearer " ++ token) 7 (len ("Bearer " ++ token)) ≡ token =
        rw len-append (slice-append_right "Bearer " token) in
      rw (starts_with-append "Bearer " token, rest, strong)
        (identify_complete (sha256 token) id none hashes
          (are_distinct_unique (sha256 token) hashes (ground (arith, registry))) i)
