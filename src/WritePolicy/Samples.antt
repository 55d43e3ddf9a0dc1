-- ===== src/WritePolicy/Samples.antt =====
-- Proposals and authorities for the tests.
use an_kla_memory.Base.{String, Bool, false, List, [], ◌∷◌, Char, code}
use an_kla_memory.Base.{eqb}
use an_kla_memory.Base.Text.{Unicode}
use an_kla_memory.Json.{Json, nil, cons, end, field, str, bool, arr, obj}
use an_kla_memory.WritePolicy.Evaluate.{Decision, write_full, write_summary}

-- Digests of one value, which is enough for the shape.
abbrev pub constant_sha256 : String → String
constant_sha256 s = "0123456789abcdef0123456789abcdef0123456789abcdef0123456789abcdef"

abbrev pub some_digest : String
some_digest = "sha256:0123456789abcdef0123456789abcdef0123456789abcdef0123456789abcdef"

abbrev pub one_space : Char → Bool
one_space c = eqb (code c) 32

abbrev pub no_word : Char → Bool
no_word c = false

abbrev pub ascii : Unicode
ascii = record { is_space = one_space; is_word = no_word; casefold_char = λ c. "x" }

abbrev pub proposal_of : String → Json
proposal_of representation = obj (
    field "schema" (str "an-kla/write-proposal-v1") (
      field "base_revision" (str some_digest) (
        field "stream" (str "facts") (
          field "operation" (str "add") (
            field "requested_representation" (str representation) (
              field "record" (obj (field "id" (str "f-1") (field "text" (str "x") end))) (
                field "lineage"
                  (obj (field "derived_from_retrieval" (bool false) (field "refs" (arr nil) end)))
                  end)))))))

abbrev pub issuer_of : String → Json
issuer_of kind = obj (
    field "kind" (str kind)
      (field "id" (str "i-1") (field "configuration_fingerprint" (str some_digest) end)))

abbrev pub scope_of : String → Json
scope_of representation = obj (
    field "streams" (arr (cons (str "facts") nil)) (
      field "representations" (arr (cons (str representation) nil))
        (field "operations" (arr (cons (str "add") nil)) end)))

abbrev pub verified_artifact : Json
verified_artifact = obj (
    field "kind" (str "artifact") (
      field "id" (str "a-1")
        (field "resolution" (str "verified") (field "sha256" (str some_digest) end))))

abbrev pub authority_of : String → String → String → Json
authority_of authority_class kind representation = obj (
    field "schema" (str "an-kla/write-authority-v1") (
      field "proposal_sha256" (str some_digest) (
        field "base_revision" (str some_digest) (
          field "authority_class" (str authority_class) (
            field "issuer" (issuer_of kind) (
              field "evidence" (arr (cons verified_artifact nil))
                (field "scope" (scope_of representation) end)))))))

abbrev pub decision_with : List String → Decision
decision_with reasons = record {
  proposal_sha256 = some_digest;
  authority_sha256 = some_digest;
  fingerprint = some_digest;
  verdict = write_full;
  reasons = reasons;
}

abbrev pub full_decision : Decision
full_decision = decision_with ("representation_accepted" ∷ "tool_evidence_verified" ∷ [])

abbrev pub summary_decision : Decision
summary_decision =
    record (decision_with ("derived_authority_capped" ∷ "representation_accepted" ∷ [])) {
      verdict = write_summary;
    }

abbrev pub observed_authority : Json
observed_authority = authority_of "tool_observed" "tool" "full"

abbrev pub derived_authority : Json
derived_authority = authority_of "derived_from_retrieval" "model" "summary"
