-- ===== src/WritePolicy/Authority.antt =====
-- `validate_write_authority` of an_kla/write_policy.py.
use an_kla_memory.Base.{String, ◌==◌, Bool, true, false, not, ◌&&◌, ◌||◌, Option, none, some, List}
use an_kla_memory.Base.{[], ◌∷◌, if◌then◌else◌, distinct, Error, write_policy, Result, ok, err}
use an_kla_memory.Base.{raise_if, ◌>>=◌, ◌>>◌}
use an_kla_memory.Json.{Json, Items, nil, cons, str, arr, obj, has, item, is_text}
use an_kla_memory.Json.{in_set}
use an_kla_memory.WritePolicy.Types.{Authority, Evidence, AuthorityClass, IssuerKind, Resolution}
use an_kla_memory.WritePolicy.Types.{tool_observed, channel_confirmed, model_derived, tool, channel}
use an_kla_memory.WritePolicy.Types.{derived_from_retrieval, model, resolver, unknown, verified}
use an_kla_memory.WritePolicy.Types.{Stream, Representation, Operation, stream_of, operation_of}
use an_kla_memory.WritePolicy.Types.{representation_of, authority_class_of, issuer_kind_of}
use an_kla_memory.WritePolicy.Types.{resolution_of}
use an_kla_memory.WritePolicy.Shape.{policy_error, require_exact_keys, is_digest_value, one_of}
use an_kla_memory.WritePolicy.Shape.{bad_digest_field, validate_json_value}

abbrev pub authority_code : String
authority_code = "invalid_write_authority"

abbrev pub fail : String → Error
fail detail = policy_error authority_code detail

-- `_EVIDENCE_KINDS`, by the schema of the authority.
pub data AuthoritySchema : Type 0 where
  v1 v2 : AuthoritySchema

abbrev pub authority_schema_of : String → Option AuthoritySchema
authority_schema_of s =
    if s == "an-kla/write-authority-v1"
    then some v1
    else if s == "an-kla/write-authority-v2"
    then some v2
    else none

abbrev pub evidence_kinds : AuthoritySchema → List String
evidence_kinds v1 = "artifact" ∷ "event" ∷ "revision" ∷ "external" ∷ []
evidence_kinds v2 = "artifact" ∷ "attestation_receipt" ∷ "event" ∷ "revision" ∷ "external" ∷ []

abbrev pub is_verified : Resolution → Bool
is_verified verified = true
is_verified _ = false

-- `_validate_evidence`
unfoldable pub validate_evidence : Json → List String → Result Evidence
unfolding require_exact_keys is_digest_value resolution_of
validate_evidence (obj value) allowed_kinds = do
  let e = fail "evidence[]:invalid"
  require_exact_keys value ("kind" ∷ "id" ∷ "resolution" ∷ []) ("sha256" ∷ []) authority_code
      "evidence[]:invalid"
  kind ← item value "kind"
  known ← in_set allowed_kinds kind
  raise_if (not known) e
  id ← item value "id"
  raise_if (not (is_text id)) e
  resolution ← one_of resolution_of (← item value "resolution") e
  raise_if (bad_digest_field value) e
  raise_if (is_verified resolution && not (has "sha256" value)) e
  ok (record { resolution = resolution; has_sha256 = has "sha256" value })
validate_evidence _ allowed_kinds = err (fail "evidence[]:invalid")

unfoldable pub validate_evidence_list : Items → List String → Result (List Evidence)
unfolding validate_evidence
validate_evidence_list nil kinds = ok []
validate_evidence_list (cons x xs) kinds = do
  first ← validate_evidence x kinds
  rest ← validate_evidence_list xs kinds
  ok (first ∷ rest)

-- Every item is a text of the vocabulary. The first failure raises, and all raise alike.
abbrev all_of {ℓ} : {A : Type ℓ} → (String → Option A) → Items → Error → Result (List A)
all_of parse nil e = ok []
all_of parse (cons (str s) xs) e = elim (parse s) [
  | none ↦ err e
  | some a ↦ all_of parse xs e >>= λ rest. ok (a ∷ rest)
]
all_of parse (cons _ xs) e = err e

abbrev item_texts : Items → List String
item_texts nil = []
item_texts (cons (str s) xs) = s ∷ item_texts xs
item_texts (cons _ xs) = item_texts xs

-- `_validate_scope_list`
abbrev pub scope_list {ℓ} : {A : Type ℓ} → (String → Option A) → Json → Error → Result (List A)
scope_list parse (arr nil) e = err e
scope_list parse (arr (cons x xs)) e = do
  values ← all_of parse (cons x xs) e
  raise_if (not (distinct (item_texts (cons x xs)))) e
  ok values
scope_list parse _ e = err e

-- `allowed_issuer_kinds`
abbrev pub issuer_allowed : AuthorityClass → IssuerKind → Bool
issuer_allowed tool_observed tool = true
issuer_allowed channel_confirmed channel = true
issuer_allowed model_derived model = true
issuer_allowed derived_from_retrieval model = true
issuer_allowed derived_from_retrieval resolver = true
issuer_allowed AuthorityClass.unresolved unknown = true
issuer_allowed AuthorityClass.unresolved resolver = true
issuer_allowed _ _ = false

-- `_POLICY_CONFIGURATION["channel_confirmed_adapter"]`
abbrev pub channel_confirmed_adapter : Bool
channel_confirmed_adapter = false

unfoldable pub validate_issuer : Json → AuthorityClass → Result (Unit {0})
unfolding require_exact_keys is_digest_value issuer_kind_of
validate_issuer (obj issuer) authority_class = do
  require_exact_keys issuer ("kind" ∷ "id" ∷ "configuration_fingerprint" ∷ []) [] authority_code
      "issuer:keys"
  kind ← one_of issuer_kind_of (← item issuer "kind") (fail "issuer.kind")
  id ← item issuer "id"
  raise_if (not (is_text id)) (fail "issuer.id")
  fingerprint ← item issuer "configuration_fingerprint"
  raise_if (not (is_digest_value fingerprint)) (fail "issuer.configuration_fingerprint:not_digest")
  raise_if (not (issuer_allowed authority_class kind)) (fail "issuer.kind:authority_class_mismatch")
validate_issuer _ authority_class = err (fail "issuer:not_object")

abbrev pub is_channel_confirmed : AuthorityClass → Bool
is_channel_confirmed channel_confirmed = true
is_channel_confirmed _ = false

abbrev text_of : Json → String
text_of (str s) = s
text_of _ = ""

-- `scope`, after its keys: the three lists.
unfoldable pub validate_scope : Json → Result (List Stream × List Representation × List Operation)
unfolding require_exact_keys stream_of representation_of operation_of
validate_scope (obj scope) = do
  require_exact_keys scope ("streams" ∷ "representations" ∷ "operations" ∷ []) [] authority_code
      "scope:keys"
  streams ← scope_list stream_of (← item scope "streams") (fail "scope.streams")
  representations ←
      scope_list representation_of (← item scope "representations") (fail "scope.representations")
  operations ← scope_list operation_of (← item scope "operations") (fail "scope.operations")
  ok (streams, representations, operations)
validate_scope _ = err (fail "scope:not_object")

unfoldable pub validate_write_authority : Json → Result Authority
unfolding require_exact_keys is_digest_value authority_class_of validate_issuer
    validate_evidence_list validate_scope validate_json_value
validate_write_authority (obj fs) = do
  require_exact_keys fs
      ("schema" ∷ "proposal_sha256" ∷ "base_revision" ∷ "authority_class" ∷ "issuer" ∷ "evidence"
        ∷ "scope" ∷ [])
      [] authority_code "authority:keys"
  schema ← one_of authority_schema_of (← item fs "schema") (fail "authority:schema")
  proposal_sha256 ← item fs "proposal_sha256"
  base_revision ← item fs "base_revision"
  raise_if (not (is_digest_value proposal_sha256) || not (is_digest_value base_revision))
      (fail "proposal_sha256|base_revision:not_digest")
  authority_class ← one_of authority_class_of (← item fs "authority_class") (fail "authority_class")
  validate_issuer (← item fs "issuer") authority_class
  raise_if (is_channel_confirmed authority_class && not channel_confirmed_adapter)
      (write_policy "channel_confirmed_requires_adapter" (some "authority_class"))
  evidence_value ← item fs "evidence"
  evidence ← elim evidence_value [
    | arr xs ↦ validate_evidence_list xs (evidence_kinds schema)
    | _ ↦ err (fail "evidence:not_list")
  ]
  scope ← validate_scope (← item fs "scope")
  validate_json_value (obj fs) authority_code "authority:invalid_json"
  ok (record {
    proposal_sha256 = text_of proposal_sha256;
    base_revision = text_of base_revision;
    authority_class = authority_class;
    evidence = evidence;
    streams = scope.0;
    representations = scope.1;
    operations = scope.2;
  })
validate_write_authority _ = err (fail "authority:not_object")
