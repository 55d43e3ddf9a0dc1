-- ===== src/Refute/Claim.antt =====
-- The evidence and the authority claim of an_kla/refute_contracts.py.
use an_kla_memory.Base.{String, ◌==◌, Bool, true, false, not, ◌&&◌, ◌||◌, Option, none, some}
use an_kla_memory.Base.{List, [], ◌∷◌, if◌then◌else◌, distinct, ltb}
use an_kla_memory.Base.{Result, ok, err, raise_if, ◌>>=◌, ◌>>◌}
use an_kla_memory.Base.{cons_results, ◌<>◌, same_list}
use an_kla_memory.Base.Text.{sorted}
use an_kla_memory.Json.{Json, Items, nil, cons, arr, obj, get}
use an_kla_memory.Json.{is_str}
use an_kla_memory.Canonical.{canonical_json}
use an_kla_memory.WritePolicy.Types.{Stream, stream_of, AuthorityClass, authority_class_of}
use an_kla_memory.WritePolicy.Types.{issuer_kind_of, tool_observed, channel_confirmed}
use an_kla_memory.WritePolicy.Shape.{one_of}
use an_kla_memory.WriteBatch.Validate.{one_of_tuple, count}
use an_kla_memory.Refute.Contracts.{policy_error, exact, digest}

pub data EvidenceKind : Type 0 where
  fact event episode revision artifact external : EvidenceKind

abbrev pub kind_of : String → Option EvidenceKind
kind_of s =
    if s == "fact"
    then some fact
    else if s == "event"
    then some event
    else if s == "episode"
    then some episode
    else if s == "revision"
    then some revision
    else if s == "artifact"
    then some artifact
    else if s == "external"
    then some external
    else none

abbrev pub kind_name : EvidenceKind → String
kind_name fact = "fact"
kind_name event = "event"
kind_name episode = "episode"
kind_name revision = "revision"
kind_name artifact = "artifact"
kind_name external = "external"

-- The key that holds the digest.
abbrev pub digest_key : EvidenceKind → String
digest_key fact = "record_sha256"
digest_key event = "record_sha256"
digest_key episode = "record_sha256"
digest_key revision = "revision_sha256"
digest_key artifact = "content_sha256"
digest_key external = "content_sha256"

-- One validated item of `evidence`; `_evidence_digest` is its `sha256`.
pub record Evidence : Type 0 where
  pub kind : EvidenceKind
  pub sha256 : String

abbrev pub claim_code : String
claim_code = "invalid_refute_authority_claim"

unfoldable pub validate_evidence : Json → Result Evidence
unfolding exact digest
validate_evidence (obj value) = do
  kind ← one_of kind_of (get value "kind") (policy_error claim_code "evidence.kind")
  let key = digest_key kind
  out ← exact (obj value) ("kind" ∷ key ∷ []) claim_code "evidence"
  sha256 ← digest (get out key) claim_code ("evidence." <> key)
  ok (record { kind = kind; sha256 = sha256 })
validate_evidence _ = err (policy_error claim_code "evidence")

unfoldable pub validate_evidence_items : Items → Result (List Evidence)
unfolding validate_evidence
validate_evidence_items nil = ok []
validate_evidence_items (cons x xs) =
    cons_results (validate_evidence x) (validate_evidence_items xs)

-- The canonical texts of the items.
unfoldable pub canonical_texts : Items → Result (List String)
canonical_texts nil = ok []
canonical_texts (cons x xs) = cons_results (canonical_json x) (canonical_texts xs)

-- The list is in the order of the canonical texts, and these differ. Two validated items are equal
-- exactly if their canonical texts are.
abbrev pub is_sorted_set : List String → Bool
is_sorted_set ts = same_list ts (sorted ts) && distinct ts

-- `out["evidence"]`: 1 to 16 items, in canonical order.
unfoldable pub read_evidence : Json → Result (List Evidence)
unfolding validate_evidence_items canonical_texts
read_evidence (arr xs) = do
  raise_if (ltb (count xs) 1 || ltb 16 (count xs)) (policy_error claim_code "evidence")
  evidence ← validate_evidence_items xs
  ts ← canonical_texts xs
  raise_if (not (is_sorted_set ts)) (policy_error claim_code "evidence.order_or_duplicate")
  ok evidence
read_evidence _ = err (policy_error claim_code "evidence")

abbrev pub issuer_keys : List String
issuer_keys = "kind" ∷ "subject_sha256" ∷ "configuration_fingerprint" ∷ []

unfoldable pub validate_issuer : Json → Result (Unit {0})
unfolding exact digest issuer_kind_of
validate_issuer value = do
  issuer ← exact value issuer_keys claim_code "issuer_claim"
  kind ← one_of issuer_kind_of (get issuer "kind") (policy_error claim_code "issuer_claim.kind")
  subject ← digest (get issuer "subject_sha256") claim_code "issuer_claim.subject_sha256"
  fingerprint ←
      digest (get issuer "configuration_fingerprint") claim_code
        "issuer_claim.configuration_fingerprint"
  ok tt

unfoldable pub validate_scope : Json → Result (Stream × String)
unfolding exact digest stream_of
validate_scope value = do
  scope ← exact value ("operation" ∷ "stream" ∷ "target_record_sha256" ∷ []) claim_code "scope"
  raise_if (not (is_str "refute" (get scope "operation"))) (policy_error claim_code "scope")
  stream ← one_of_tuple stream_of (get scope "stream") (policy_error claim_code "scope")
  target ← digest (get scope "target_record_sha256") claim_code "scope.target_record_sha256"
  ok (stream, target)

-- A validated refute-authority-claim-v1.
pub record Claim : Type 0 where
  pub proposal_sha256 : String
  pub base_revision : String
  pub authority_class : AuthorityClass
  pub evidence_value : Json
  pub evidence : List Evidence
  pub scope_stream : Stream
  pub scope_target : String

unfoldable pub validate_claim : Json → Result Claim
unfolding exact digest authority_class_of validate_issuer read_evidence validate_scope
validate_claim value = do
  out ←
      exact value
        ("schema" ∷ "proposal_sha256" ∷ "base_revision" ∷ "requested_authority_class"
          ∷ "issuer_claim" ∷ "evidence" ∷ "scope" ∷ [])
        claim_code "shape"
  raise_if (not (is_str "an-kla/refute-authority-claim-v1" (get out "schema")))
      (policy_error claim_code "schema")
  proposal_sha256 ← digest (get out "proposal_sha256") claim_code "proposal_sha256"
  base_revision ← digest (get out "base_revision") claim_code "base_revision"
  authority_class ←
      one_of_tuple authority_class_of (get out "requested_authority_class")
        (policy_error claim_code "requested_authority_class")
  validate_issuer (get out "issuer_claim")
  evidence ← read_evidence (get out "evidence")
  scope ← validate_scope (get out "scope")
  ok (record {
    proposal_sha256 = proposal_sha256;
    base_revision = base_revision;
    authority_class = authority_class;
    evidence_value = get out "evidence";
    evidence = evidence;
    scope_stream = scope.0;
    scope_target = scope.1;
  })

-- `requested_authority_class in PRIVILEGED`
abbrev pub is_privileged : AuthorityClass → Bool
is_privileged tool_observed = true
is_privileged channel_confirmed = true
is_privileged _ = false
