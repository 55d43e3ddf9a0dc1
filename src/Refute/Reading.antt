-- ===== src/Refute/Reading.antt =====
-- The decision of `evaluate` reads back through `validate_decision`.
use an_kla_memory.Base.{String, ◌≡◌, refl, ap, ◌∙◌, subst, Bool, true, false}
use an_kla_memory.Base.{Option, none, some, member, ok}
use an_kla_memory.Base.{>>=-eq-ok, eq_refl, ok_inj}
use an_kla_memory.Json.{Json, str}
use an_kla_memory.Canonical.{digest_json, digest_bytes, canonical_json}
use an_kla_memory.Canonical.Identifiers.{is_digest, bare_digest-is_digest}
use an_kla_memory.Refute.Contracts.{exact, digest}
use an_kla_memory.Refute.Evaluate.{config, Verdict, skip, refute, Decision, decision_json}
use an_kla_memory.Refute.Evaluate.{policy_fingerprint, attestation_id_of}
use an_kla_memory.Refute.Plan.{skip_reasons, validate_decision, check_reason, check_installed}
use an_kla_memory.Refute.Outcomes.{Fits, skipped, refuted}

digest_ok : (s code detail : String) → is_digest s ≡ true → digest (str s) code detail ≡ ok s
unfolding digest
digest_ok s code detail h = rw (digest, bare_digest-is_digest s, h) refl

module _ (sha256 : String → String)
    (gives_hex : (s : String) → is_digest (digest_bytes sha256 s) ≡ true) where
  -- What `digest_json` gives is the text of a digest.
  pub digest_json-is_digest :
      (v : Json) (s : String) → digest_json sha256 v ≡ ok s → is_digest s ≡ true
  unfolding digest_json
  digest_json-is_digest v s h =
      let (t, h1, e) = >>=-eq-ok (canonical_json v) _ h in
      subst (λ x. is_digest x ≡ true) (ok_inj h1) (gives_hex t)

  check_installed_ok :
      (enforce : Bool) (fp : String)
      → policy_fingerprint sha256 ≡ ok fp
      → check_installed sha256 enforce fp ≡ ok tt
  check_installed_ok false fp h = refl
  check_installed_ok true fp h = rw (h, eq_refl fp) refl

  -- A decision to skip reads back as it is.
  validate_decision-skip :
      (enforce : Bool) (ps cs fp reason : String)
      → is_digest ps ≡ true
      → is_digest cs ≡ true
      → is_digest fp ≡ true
      → policy_fingerprint sha256 ≡ ok fp
      → member reason skip_reasons ≡ true
      → let d : Decision = record {
        proposal_sha256 = ps;
        claim_sha256 = cs;
        attestation_id = none;
        fingerprint = fp;
        verdict = skip;
        reason = reason;
      } in
        validate_decision sha256 enforce (decision_json d) ≡ ok d
  unfolding validate_decision exact check_reason
  validate_decision-skip enforce ps cs fp reason hp hc hf h known =
      rw
        (
          digest_ok ps _ _ hp,
          digest_ok cs _ _ hc,
          digest_ok fp _ _ hf,
          check_installed_ok enforce fp h,
          known,
        )
        refl

  validate_decision-refute :
      (enforce : Bool) (ps cs fp id : String)
      → is_digest ps ≡ true
      → is_digest cs ≡ true
      → is_digest fp ≡ true
      → is_digest id ≡ true
      → policy_fingerprint sha256 ≡ ok fp
      → let d : Decision = record {
        proposal_sha256 = ps;
        claim_sha256 = cs;
        attestation_id = some id;
        fingerprint = fp;
        verdict = refute;
        reason = "refute_accepted";
      } in
        validate_decision sha256 enforce (decision_json d) ≡ ok d
  unfolding validate_decision exact check_reason
  validate_decision-refute enforce ps cs fp id hp hc hf hi h =
      rw
        (
          digest_ok ps _ _ hp,
          digest_ok cs _ _ hc,
          digest_ok fp _ _ hf,
          check_installed_ok enforce fp h,
          digest_ok id _ _ hi,
        )
        refl

  pub validate_decision_ok :
      (enforce : Bool) (ps cs fp : String) (id : Option String) (v : Verdict) (reason : String)
      (attestation : Option Json)
      → is_digest ps ≡ true
      → is_digest cs ≡ true
      → policy_fingerprint sha256 ≡ ok fp
      → attestation_id_of sha256 attestation ≡ ok id
      → Fits v reason attestation
      → let d : Decision = record {
        proposal_sha256 = ps;
        claim_sha256 = cs;
        attestation_id = id;
        fingerprint = fp;
        verdict = v;
        reason = reason;
      } in
        validate_decision sha256 enforce (decision_json d) ≡ ok d
  unfolding policy_fingerprint
  validate_decision_ok enforce ps cs fp (some id) _ _ _ hp hc h a (skipped reason known) = cc
  validate_decision_ok enforce ps cs fp none _ _ _ hp hc h a (skipped reason known) =
      validate_decision-skip enforce ps cs fp reason hp hc (digest_json-is_digest config fp h) h
        known
  validate_decision_ok enforce ps cs fp none _ _ _ hp hc h a (refuted raw) =
      let (id, k, e) = >>=-eq-ok (digest_json sha256 raw) _ a in cc k
  validate_decision_ok enforce ps cs fp (some id) _ _ _ hp hc h a (refuted raw) =
      let (id', k, e) = >>=-eq-ok (digest_json sha256 raw) _ a in
      let same : id' ≡ id = cc k in
      validate_decision-refute enforce ps cs fp id hp hc (digest_json-is_digest config fp h)
        (digest_json-is_digest raw id (e ∙ ap ok same)) h
