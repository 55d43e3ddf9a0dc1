-- ===== src/Canonical/SizedPayload.antt =====
-- `exact_sized_payload` of an_kla/canonical.py: a payload that holds its own canonical size.
use an_kla_memory.Base.{ℕ, zero, suc, ◌≡◌, refl, String, Bool, false, ◌||◌, List, [], ◌∷◌}
use an_kla_memory.Base.{if◌then◌else◌, Result, ok, err, value_error, ◌>>=◌, eqb, arith}
use an_kla_memory.Json.{Json}
use an_kla_memory.Canonical.{canonical_json, byte_length}

abbrev seen : ℕ → List ℕ → Bool
seen n [] = false
seen n (m ∷ ms) = eqb n m || seen n ms

module _ (build : ℕ → Json) where
  -- The loop, with the rounds left; `observed` holds the sizes measured so far.
  unfoldable size_loop : ℕ → ℕ → List ℕ → Result (Json × ℕ)
  size_loop zero used observed = err (value_error "payload_size_not_converged")
  size_loop (suc rounds) used observed = canonical_json (build used) >>= λ text.
      let measured = byte_length text in
      let again = size_loop rounds measured (measured ∷ observed) in
      if eqb measured used
      then ok (build used, measured)
      else if seen measured observed
      then err (value_error "payload_size_not_converged")
      else again

  -- `max_iterations` is 16 by default.
  unfoldable pub exact_sized_payload : ℕ → Result (Json × ℕ)
  unfolding size_loop
  exact_sized_payload max_iterations = size_loop max_iterations 0 []

  -- A returned payload was built for a size, and its canonical JSON has that many bytes.
  abbrev pub IsExact : Json → ℕ → Type 0
  IsExact payload size =
      (payload ≡ build size)
      × ((canonical_json payload >>= λ text. ok (byte_length text)) ≡ ok size)

  -- One round, over what the later rounds return.
  size_step-IsExact :
      (used : ℕ) (observed : List ℕ) (later : ℕ → List ℕ → Result (Json × ℕ)) {payload : Json}
      {size : ℕ}
      → ((m : ℕ) (sizes : List ℕ) → later m sizes ≡ ok (payload, size) → IsExact payload size)
      → (r : Result String) → canonical_json (build used) ≡ r
      → (r >>= λ text.
          let measured = byte_length text in
          let again = later measured (measured ∷ observed) in
          if eqb measured used
          then ok (build used, measured)
          else if seen measured observed
          then err (value_error "payload_size_not_converged")
          else again)
        ≡ ok (payload, size)
      → IsExact payload size
  size_step-IsExact used observed later ih (err e) rendered q = cc
  size_step-IsExact used observed later ih (ok text) rendered q =
      ground (arith, ih (byte_length text) (byte_length text ∷ observed))

  size_loop-IsExact :
      (rounds used : ℕ) (observed : List ℕ) {payload : Json} {size : ℕ}
      → size_loop rounds used observed ≡ ok (payload, size)
      → IsExact payload size
  unfolding size_loop
  size_loop-IsExact zero used observed h = cc
  size_loop-IsExact (suc rounds) used observed h =
      size_step-IsExact used observed (size_loop rounds)
        (λ m seen_sizes. size_loop-IsExact rounds m seen_sizes) _ refl h

  -- A returned payload was built for the size that is returned with it, and its canonical JSON has
  -- that many bytes.
  pub exact_sized_payload-IsExact :
      (max_iterations : ℕ) {payload : Json} {size : ℕ}
      → exact_sized_payload max_iterations ≡ ok (payload, size)
      → IsExact payload size
  unfolding exact_sized_payload
  exact_sized_payload-IsExact max_iterations h = size_loop-IsExact max_iterations 0 [] h
