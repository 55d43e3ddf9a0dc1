-- ===== src/Refute/Attestation.antt =====
-- The observations of the store and the resolver's attestation, of an_kla/refute_contracts.py.
use an_kla_memory.Base.{String, Bool, true, false, not, ◌&&◌, ◌||◌, List, [], ◌∷◌, length, eqb}
use an_kla_memory.Base.{cons_results, Error, if◌then◌else◌, Result, ok, err, raise_if, ◌>>=◌, ◌>>◌}
use an_kla_memory.Json.{Json, Fields, Items, cons, field, end, null, str, arr, obj, get, is_str}
use an_kla_memory.Json.Equal.{equal}
use an_kla_memory.Canonical.{digest_json}
use an_kla_memory.WritePolicy.Types.{Stream, stream_name, AuthorityClass, authority_class_name}
use an_kla_memory.WritePolicy.Types.{tool_observed}
use an_kla_memory.WritePolicy.Plan.{part}
use an_kla_memory.WriteBatch.Validate.{count}
use an_kla_memory.Refute.Contracts.{policy_error, exact, digest, profile, Proposal}
use an_kla_memory.Refute.Claim.{Claim, Evidence}
use an_kla_memory.Refute.Claim.{EvidenceKind, artifact, external, kind_name, digest_key}
use an_kla_memory.Refute.Claim.{issuer_keys, is_privileged}

abbrev pub attestation_code : String
attestation_code = "invalid_refute_attestation"

abbrev fail : String → Error
fail detail = policy_error attestation_code detail

-- The dict of a validated item, as far as `==` tells.
abbrev pub evidence_json : Evidence → Fields → Json
evidence_json e more =
    obj (field "kind" (str (kind_name e.kind)) (field (digest_key e.kind) (str e.sha256) more))

-- The scope that names one record.
abbrev pub scope_json : Stream → String → Json
scope_json stream target = obj (
    field "operation" (str "refute")
      (field "stream" (str (stream_name stream)) (field "target_record_sha256" (str target) end)))

-- `kind in {"artifact", "external"}`
abbrev pub is_outside : EvidenceKind → Bool
is_outside artifact = true
is_outside external = true
is_outside _ = false

abbrev pub is_null : Json → Bool
is_null null = true
is_null _ = false

-- `store_resolution`, of which only "present" is asked for afterwards.
abbrev pub is_present : Fields → Bool
is_present observation = is_str "present" (get observation "store_resolution")

-- A kind outside of the store is unavailable; one inside is present with its digest, or missing.
unfoldable pub check_resolution : Evidence → Fields → Result (Unit {0})
check_resolution e observation =
    let resolution = get observation "store_resolution" in
    let observed = get observation "observed_sha256" in
    if is_outside e.kind
    then raise_if (not (is_str "unavailable" resolution) || not (is_null observed))
        (fail "observation.external")
    else if is_present observation
    then raise_if (not (is_str e.sha256 observed)) (fail "observation.present")
    else raise_if (not (is_str "missing" resolution) || not (is_null observed))
        (fail "observation.missing")

module _ (same_number : Json → Json → Bool) where
  unfoldable pub validate_observation : Json → Evidence → Result Fields
  unfolding exact equal check_resolution
  validate_observation raw e = do
    observation ←
        exact raw ("schema" ∷ "evidence" ∷ "store_resolution" ∷ "observed_sha256" ∷ [])
          attestation_code "observation"
    raise_if (not (is_str "an-kla/refute-observation-v1" (get observation "schema")))
        (fail "observation.binding")
    raise_if (not (equal same_number (get observation "evidence") (evidence_json e end)))
        (fail "observation.binding")
    check_resolution e observation
    ok observation

  -- The loop over `zip(out["items"], claim["evidence"])`, the lengths being equal.
  unfoldable pub validate_observation_items : Items → List Evidence → Result (List Fields)
  unfolding validate_observation
  validate_observation_items (cons raw raws) (e ∷ es) =
      cons_results (validate_observation raw e) (validate_observation_items raws es)
  validate_observation_items _ _ = ok []

  -- Returns the items.
  unfoldable pub validate_observations : Json → Claim → Result (List Fields)
  unfolding exact validate_observation_items
  validate_observations value claim = do
    out ← exact value ("schema" ∷ "base_revision" ∷ "items" ∷ []) attestation_code "observations"
    raise_if
        (not (is_str "an-kla/refute-observations-v1" (get out "schema"))
          || not (is_str claim.base_revision (get out "base_revision")))
        (fail "observations.binding")
    elim (get out "items") [
      | arr xs ↦
          raise_if (not (eqb (count xs) (length claim.evidence))) (fail "observations.items")
          >> validate_observation_items xs claim.evidence
      | _ ↦ err (fail "observations.items")
    ]

unfoldable pub validate_descriptor : Json → Result String
unfolding exact digest profile
validate_descriptor value = do
  out ←
      exact value ("profile" ∷ "subject_sha256" ∷ "configuration_fingerprint" ∷ []) attestation_code
        "resolver"
  name ← profile (get out "profile") attestation_code "resolver.profile"
  subject ← digest (get out "subject_sha256") attestation_code "resolver.subject_sha256"
  fingerprint ←
      digest (get out "configuration_fingerprint") attestation_code
        "resolver.configuration_fingerprint"
  ok name

-- `"tool" if out["authority_class"] == "tool_observed" else "channel"`
abbrev pub expected_kind : AuthorityClass → String
expected_kind tool_observed = "tool"
expected_kind _ = "channel"

-- The issuer of an attestation is a tool or a channel, as its class says.
unfoldable pub validate_attesting_issuer : Json → AuthorityClass → Result (Unit {0})
unfolding exact digest
validate_attesting_issuer value authority_class = do
  issuer ← exact value issuer_keys attestation_code "issuer"
  raise_if (not (is_str (expected_kind authority_class) (get issuer "kind"))) (fail "issuer.kind")
  subject ← digest (get issuer "subject_sha256") attestation_code "issuer.subject_sha256"
  fingerprint ←
      digest (get issuer "configuration_fingerprint") attestation_code
        "issuer.configuration_fingerprint"
  ok tt

-- `validate_attestation`: the proof is of the resolver's profile.
unfoldable pub validate_proof : Json → Json → Result (Unit {0})
unfolding exact digest profile
validate_proof value descriptor = do
  proof ← exact value ("profile" ∷ "proof_sha256" ∷ []) attestation_code "proof"
  name ← profile (get proof "profile") attestation_code "proof.profile"
  sha256 ← digest (get proof "proof_sha256") attestation_code "proof.proof_sha256"
  raise_if (not (is_str name (part descriptor "profile"))) (fail "proof.profile")

module _ (same_number : Json → Json → Bool) (sha256 : String → String) where
  -- `{**evidence, "resolution": "verified", "observation_sha256": ...}`, of what is in the store
  -- or outside of it.
  unfoldable pub check_evidence : Json → Evidence → Fields → Result (Unit {0})
  unfolding equal
  check_evidence resolution e observation = do
    sha ← digest_json sha256 (obj observation)
    raise_if
        (not (
          equal same_number resolution (
            evidence_json e
              (field "resolution" (str "verified") (field "observation_sha256" (str sha) end)))))
        (fail "evidence_resolutions.binding")
    raise_if (not (is_outside e.kind) && not (is_present observation))
        (fail "evidence_resolutions.missing")

  -- The loop over `zip(out["evidence_resolutions"], claim["evidence"], observations["items"])`.
  unfoldable pub check_evidence_items : Items → List Evidence → List Fields → Result (Unit {0})
  unfolding check_evidence
  check_evidence_items (cons r rs) (e ∷ es) (o ∷ os) =
      check_evidence r e o >> check_evidence_items rs es os
  check_evidence_items _ _ _ = ok tt

  -- The chain of `or` in `validate_attestation`: each of the tests raises the same error.
  unfoldable pub check_binding :
      Fields → Json → Proposal → Json → Claim → Json → Json → Result (Unit {0})
  unfolding equal
  check_binding out proposal p claim c observations descriptor = do
    let e = fail "binding"
    raise_if (not (is_str "an-kla/refute-authority-attestation-v1" (get out "schema"))) e
    proposal_sha ← digest_json sha256 proposal
    raise_if (not (is_str proposal_sha (get out "proposal_sha256"))) e
    claim_sha ← digest_json sha256 claim
    raise_if (not (is_str claim_sha (get out "authority_claim_sha256"))) e
    raise_if (not (is_str p.base_revision (get out "base_revision"))) e
    raise_if (not (equal same_number (get out "resolver") descriptor)) e
    observations_sha ← digest_json sha256 observations
    raise_if (not (is_str observations_sha (get out "observations_sha256"))) e
    raise_if (not (equal same_number (get out "scope") (scope_json c.scope_stream c.scope_target)))
        e
    raise_if (not (is_str (authority_class_name c.authority_class) (get out "authority_class"))) e

  -- Returns what is validated, unchanged.
  unfoldable pub validate_attestation :
      Json → Json → Proposal → Json → Claim → Json → List Fields → Json → Result (Unit {0})
  unfolding exact check_binding validate_descriptor validate_attesting_issuer check_evidence_items
      validate_proof
  validate_attestation value proposal p claim c observations items descriptor = do
    out ←
        exact value
          ("schema" ∷ "proposal_sha256" ∷ "authority_claim_sha256" ∷ "base_revision" ∷ "resolver"
            ∷ "authority_class" ∷ "issuer" ∷ "observations_sha256" ∷ "evidence_resolutions"
            ∷ "scope" ∷ "proof" ∷ [])
          attestation_code "shape"
    check_binding out proposal p claim c observations descriptor
    name ← validate_descriptor (get out "resolver")
    raise_if (not (is_privileged c.authority_class)) (fail "authority_class")
    validate_attesting_issuer (get out "issuer") c.authority_class
    elim (get out "evidence_resolutions") [
      | arr xs ↦
          raise_if (not (eqb (count xs) (length c.evidence))) (fail "evidence_resolutions")
          >> check_evidence_items xs c.evidence items
      | _ ↦ err (fail "evidence_resolutions")
    ]
    validate_proof (get out "proof") descriptor
