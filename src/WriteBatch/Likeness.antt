-- ===== src/WriteBatch/Likeness.antt =====
-- The twin of a valid batch asks for what the batch asks.
use an_kla_memory.Base.{String, ◌≡◌, ◌∙◌, refl, sym, ap, [], ◌∷◌}
use an_kla_memory.Base.{ok, arith, >>=-eq-ok, >>-eq-ok}
use an_kla_memory.Json.{
  Json, Fields, null, bool, num, real, not_finite, str, arr, obj, end, item, get,
}
use an_kla_memory.WritePolicy.Types.{
  Proposal, Operation, Representation, operation_of, representation_of,
}
use an_kla_memory.WritePolicy.Shape.{one_of, require_exact_keys}
use an_kla_memory.WritePolicy.Proposal.{validate_single_proposal, proposal_code, fail}
use an_kla_memory.WritePolicy.Proposal.{read_request}
use an_kla_memory.WriteBatch.Validate.{
  Batch, validate_batch_proposal, one_of_tuple, batch_operation_of,
}
use an_kla_memory.WriteBatch.Validate.{read_batch_request}
use an_kla_memory.WriteBatch.Judge.{twin_of}
use an_kla_memory.Base.{ok_inj}
use an_kla_memory.WriteBatch.Readings.{
  keys_of, read_request-SingleRead, read_batch_request-BatchRead, read_content-asked,
  read_batch_content-asked,
}

-- A known key: `get` and `item` agree.
get_of_item : (fs : Fields) (k : String) (v : Json) → item fs k ≡ ok v → get fs k ≡ v
get_of_item fs k v h = ground arith

same_operation :
    (v : Json) (o o' : Operation)
    → one_of_tuple batch_operation_of v (fail "operation") ≡ ok o
    → one_of operation_of v (fail "operation") ≡ ok o'
    → o' ≡ o
unfolding operation_of
same_operation (str s) o o' h h' = ground arith
same_operation null o o' h h' = cc
same_operation (bool b) o o' h h' = cc
same_operation (num n) o o' h h' = cc
same_operation (real r) o o' h h' = cc
same_operation not_finite o o' h h' = cc
same_operation (arr xs) o o' h h' = cc
same_operation (obj fs) o o' h h' = cc

same_requested :
    (v : Json) (r r' : Representation)
    → one_of_tuple representation_of v (fail "requested_representation") ≡ ok r
    → one_of representation_of v (fail "requested_representation") ≡ ok r'
    → r' ≡ r
same_requested (str s) r r' h h' = ok_inj (sym h' ∙ h)
same_requested null r r' h h' = cc
same_requested (bool b) r r' h h' = cc
same_requested (num n) r r' h h' = cc
same_requested (real x) r r' h h' = cc
same_requested not_finite r r' h h' = cc
same_requested (arr xs) r r' h h' = cc
same_requested (obj fs) r r' h h' = cc

-- The twin of an object is read off its fields.
twin_item :
    (fs : Fields)
    → (twin : Fields) × (twin_of (obj fs) ≡ obj twin)
      × (item twin "operation" ≡ ok (get fs "operation"))
      × (item twin "requested_representation" ≡ ok (get fs "requested_representation"))
unfolding twin_of
twin_item fs = (_, refl, refl, refl)

twin_obj-asks :
    (fs twin : Fields) (b : Batch) (p : Proposal)
    → item twin "operation" ≡ ok (get fs "operation")
    → item twin "requested_representation" ≡ ok (get fs "requested_representation")
    → validate_batch_proposal (obj fs) ≡ ok b
    → validate_single_proposal (obj twin) ≡ ok p
    → (p.operation ≡ b.operation) × (p.requested ≡ b.requested)
unfolding validate_batch_proposal validate_single_proposal
twin_obj-asks fs twin b p at_operation at_requested h h' =
    let (_, h₁) =
      >>-eq-ok
        (require_exact_keys fs (keys_of "records") ("supersedes" ∷ []) proposal_code
          "proposal:keys")
        _ h in
    let (q, h₂, asked) = >>=-eq-ok (read_batch_request fs) _ h₁ in
    let (_, k₁) =
      >>-eq-ok
        (require_exact_keys twin (keys_of "record") ("supersedes" ∷ []) proposal_code
          "proposal:keys")
        _ h' in
    let (q', k₂, asked') = >>=-eq-ok (read_request twin) _ k₁ in
    let r = read_batch_request-BatchRead fs q asked in
    let r' = read_request-SingleRead twin q' asked' in
    let (o, n) = read_batch_content-asked fs q b h₂ in
    let (o', n') = read_content-asked twin q' p k₂ in
    let same_value : r'.operation_value ≡ r.operation_value = ok_inj (
      sym r'.has_operation ∙ at_operation ∙ ap ok (get_of_item fs "operation" _ r.has_operation)) in
    let same_value' : r'.requested_value ≡ r.requested_value = ok_inj (
      sym r'.has_requested
      ∙ at_requested
      ∙ ap ok (get_of_item fs "requested_representation" _ r.has_requested)) in
    (
      o'
          ∙ same_operation r.operation_value q.2 q'.2 r.reads_operation (
              ap (λ v. one_of operation_of v (fail "operation")) (sym same_value)
              ∙ r'.reads_operation)
          ∙ sym o,
      n'
          ∙ same_requested r.requested_value q.3 q'.3 r.reads_requested (
              ap (λ v. one_of representation_of v (fail "requested_representation"))
                (sym same_value')
              ∙ r'.reads_requested)
          ∙ sym n,
    )

-- A valid batch is an object.
pub batch_is_obj :
    (proposal : Json) (b : Batch)
    → validate_batch_proposal proposal ≡ ok b
    → (fs : Fields) × (proposal ≡ obj fs)
unfolding validate_batch_proposal
batch_is_obj (obj fs) b h = (fs, refl)
batch_is_obj null b h = (end, cc)
batch_is_obj (bool x) b h = (end, cc)
batch_is_obj (num n) b h = (end, cc)
batch_is_obj (real r) b h = (end, cc)
batch_is_obj not_finite b h = (end, cc)
batch_is_obj (str s) b h = (end, cc)
batch_is_obj (arr xs) b h = (end, cc)

-- The twin asks for the operation and the representation of the batch.
pub twin_of-asks :
    (proposal : Json) (b : Batch) (p : Proposal)
    → validate_batch_proposal proposal ≡ ok b
    → validate_single_proposal (twin_of proposal) ≡ ok p
    → (p.operation ≡ b.operation) × (p.requested ≡ b.requested)
twin_of-asks proposal b p h h' =
    let (fs, e) = batch_is_obj proposal b h in
    let (twin, built, at_operation, at_requested) = twin_item fs in
    twin_obj-asks fs twin b p at_operation at_requested (ap validate_batch_proposal (sym e) ∙ h) (
      ap validate_single_proposal (sym built)
      ∙ ap (λ v. validate_single_proposal (twin_of v)) (sym e)
      ∙ h')
