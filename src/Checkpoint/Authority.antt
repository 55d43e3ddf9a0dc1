-- ===== src/Checkpoint/Authority.antt =====
-- `validate_authority` of an_kla/checkpoint_policy.py.
use an_kla_memory.Base.{String, ◌<>◌, ◌==◌, Bool, true, false, not, ◌&&◌, Option, none, some}
use an_kla_memory.Base.{List, [], ◌∷◌, if◌then◌else◌, member, distinct, all, same_list, Error}
use an_kla_memory.Base.{Result, ok, err, raise_if, ◌>>=◌, ◌>>◌}
use an_kla_memory.Base.Text.{sorted, join}
use an_kla_memory.Json.{Json, Fields, Items, nil, cons, str, arr, obj, keys, get, has, lookup}
use an_kla_memory.Json.{is_str, is_text, in_set}
use an_kla_memory.WritePolicy.Shape.{without, one_of}
use an_kla_memory.Checkpoint.Contracts.{policy_error, authority_code, exact, digest, cap, key_names}
use an_kla_memory.Checkpoint.Contracts.{checkpoint_fields}

abbrev fail : String → Error
fail detail = policy_error authority_code detail

abbrev evidence_keys : List String
evidence_keys = "kind" ∷ "id" ∷ "resolution" ∷ []

abbrev known_keys : List String
known_keys = "kind" ∷ "id" ∷ "resolution" ∷ "sha256" ∷ []

abbrev pub is_filled : List String → Bool
is_filled [] = false
is_filled (x ∷ xs) = true

-- The two tests on the keys.
unfoldable pub check_evidence_keys : Fields → Result (Unit {0})
unfolding join key_names
check_evidence_keys value =
    let missing = sorted (without evidence_keys (keys value)) in
    let extra = key_names (without (keys value) known_keys) in
    raise_if (is_filled missing) (fail (cap ("evidence[]:keys:missing=" <> join "," missing)))
    >> raise_if (is_filled extra) (fail (cap ("evidence[]:keys:extra=" <> join "," extra)))

-- `_validate_evidence`
unfoldable pub validate_evidence : Json → Result (Unit {0})
unfolding check_evidence_keys digest
validate_evidence (obj value) = do
  check_evidence_keys value
  known ← in_set ("artifact" ∷ "event" ∷ "revision" ∷ "external" ∷ []) (get value "kind")
  raise_if (not known) (fail "evidence[].kind")
  raise_if (not (is_text (get value "id"))) (fail "evidence[].id")
  resolved ← in_set ("verified" ∷ "unresolved" ∷ "invalid" ∷ []) (get value "resolution")
  raise_if (not resolved) (fail "evidence[].resolution")
  raise_if (is_str "verified" (get value "resolution") && not (has "sha256" value))
      (fail "evidence[].sha256:required_for_verified")
  elim (lookup "sha256" value) [
    | none ↦ ok tt
    | some v ↦ digest v authority_code "evidence[].sha256:not_digest" >>= λ s. ok tt
  ]
validate_evidence _ = err (fail "evidence[]:not_object")

unfoldable pub validate_evidence_items : Items → Result (Unit {0})
unfolding validate_evidence
validate_evidence_items nil = ok tt
validate_evidence_items (cons x xs) = validate_evidence x >> validate_evidence_items xs

-- The classes that are left after the two that need an adapter.
pub data AuthorityClass : Type 0 where
  model_derived unresolved : AuthorityClass

abbrev pub class_of : String → Option AuthorityClass
class_of s =
    if s == "model_derived"
    then some model_derived
    else if s == "unresolved"
    then some unresolved
    else none

-- `classes[value["authority_class"]]`
abbrev pub issuer_kind : AuthorityClass → String
issuer_kind model_derived = "model"
issuer_kind unresolved = "unknown"

unfoldable pub read_class : Json → Result AuthorityClass
read_class value =
    raise_if (is_str "tool_observed" value)
      (policy_error "tool_observed_requires_adapter" "authority_class")
    >> raise_if (is_str "channel_confirmed" value)
        (policy_error "channel_confirmed_requires_adapter" "authority_class")
    >> one_of class_of value (fail "authority_class:unknown")

unfoldable pub validate_issuer : Json → AuthorityClass → Result (Unit {0})
unfolding exact digest
validate_issuer value authority_class = do
  issuer ← exact value ("kind" ∷ "id" ∷ "configuration_fingerprint" ∷ []) authority_code "issuer"
  raise_if (not (is_str (issuer_kind authority_class) (get issuer "kind")))
      (fail "issuer.kind:authority_class_mismatch")
  raise_if (not (is_text (get issuer "id"))) (fail "issuer.id")
  fingerprint ←
      digest (get issuer "configuration_fingerprint") authority_code
        "issuer.configuration_fingerprint:not_digest"
  ok tt

-- The texts of a list, if it holds nothing else.
abbrev pub all_texts : Items → Option (List String)
all_texts nil = some []
all_texts (cons (str s) xs) = elim (all_texts xs) [ none ↦ none | some ss ↦ some (s ∷ ss) ]
all_texts (cons _ xs) = none

-- `scope["fields"]`: texts, at least one, in order, none twice, all of `FIELDS`.
abbrev pub check_names : List String → Result (List String)
check_names names = do
  raise_if (not (is_filled names)) (fail "scope.fields:empty")
  raise_if (not (same_list names (sorted names))) (fail "scope.fields:order")
  raise_if (not (distinct names)) (fail "scope.fields:duplicate")
  raise_if (not (all (λ n. member n checkpoint_fields) names)) (fail "scope.fields:unknown")
  ok names

unfoldable pub read_fields : Json → Result (List String)
read_fields (arr xs) = elim (all_texts xs) [
  | none ↦ err (fail "scope.fields:not_string")
  | some names ↦ check_names names
]
read_fields _ = err (fail "scope.fields:not_list")

unfoldable pub validate_scope : Json → Result (List String)
unfolding exact read_fields
validate_scope value = do
  scope ← exact value ("operation" ∷ "fields" ∷ []) authority_code "scope"
  raise_if (not (is_str "checkpoint" (get scope "operation"))) (fail "scope.operation")
  read_fields (get scope "fields")

-- A validated checkpoint-authority-v1.
pub record Authority : Type 0 where
  pub proposal_sha256 : String
  pub base_revision : String
  pub authority_class : AuthorityClass
  pub fields : List String

unfoldable pub validate_authority : Json → Result Authority
unfolding exact digest read_class validate_issuer validate_evidence_items validate_scope
validate_authority authority = do
  value ←
      exact authority
        ("schema" ∷ "proposal_sha256" ∷ "base_revision" ∷ "authority_class" ∷ "issuer" ∷ "evidence"
          ∷ "scope" ∷ [])
        authority_code "authority"
  raise_if (not (is_str "an-kla/checkpoint-authority-v1" (get value "schema")))
      (fail "authority.schema")
  proposal_sha ← digest (get value "proposal_sha256") authority_code "proposal_sha256:not_digest"
  base ← digest (get value "base_revision") authority_code "base_revision:not_digest"
  authority_class ← read_class (get value "authority_class")
  validate_issuer (get value "issuer") authority_class
  elim (get value "evidence") [
    | arr xs ↦ validate_evidence_items xs
    | _ ↦ err (fail "evidence:not_list")
  ]
  names ← validate_scope (get value "scope")
  ok (record {
    proposal_sha256 = proposal_sha;
    base_revision = base;
    authority_class = authority_class;
    fields = names;
  })
