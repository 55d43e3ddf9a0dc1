-- ===== src/Revision/Maps.antt =====
-- The lists and maps of a manifest, for `validate_manifest` of an_kla/revision_validation.py.
use an_kla_memory.Base.{
  String, ◌==◌, Bool, true, false, not, ◌&&◌, ◌||◌, Option, none, some, List, [], ◌∷◌,
}
use an_kla_memory.Base.{
  all, member, distinct, Error, value_error, type_error, Result, ok, err, raise_if, ◌>>=◌, ◌>>◌,
}
use an_kla_memory.Json.{
  Json, Fields, Items, nil, cons, null, str, arr, obj, keys, get, is_str, is_text,
}
use an_kla_memory.Canonical.Identifiers.{bare_digest}
use an_kla_memory.Transactions.Attempts.{is_canonical_uuid}

-- `xs.issubset(ys)`
abbrev pub subset : List String → List String → Bool
subset xs ys = all (λ x. member x ys) xs

abbrev pub is_obj : Json → Bool
is_obj (obj fs) = true
is_obj _ = false

-- `bare_digest(str(value))`: the text of no other value has the prefix.
abbrev pub digest_check : Json → Result (Unit {0})
digest_check (str s) = bare_digest s >>= λ bare. ok tt
digest_check _ = err (value_error "invalid_sha256_identifier")

-- `except (ValueError, AttributeError): raise error`
abbrev pub or_fail : Result (Unit {0}) → Error → Result (Unit {0})
or_fail (ok x) e = ok tt
or_fail (err _) e = err e

abbrev pub stream_names : List String
stream_names = "facts" ∷ "events" ∷ "episodes" ∷ []

-- `value in STREAMS`, a tuple
abbrev pub is_stream : Json → Bool
is_stream (str s) = member s stream_names
is_stream _ = false

abbrev pub exact_keys : List String → Fields → Bool
exact_keys names fs = subset names (keys fs) && subset (keys fs) names

-- The texts of a list of segments, if all are.
abbrev pub segment_texts : Items → Option (List String)
segment_texts nil = some []
segment_texts (cons (str s) xs) =
    let rest = segment_texts xs in elim rest [ none ↦ none | some ss ↦ some (s ∷ ss) ]
segment_texts (cons _ xs) = none

abbrev pub digests_check : List String → Result (Unit {0})
digests_check [] = ok tt
digests_check (s ∷ ss) = (bare_digest s >>= λ bare. ok tt) >> digests_check ss

abbrev pub stream_text : Json → String
stream_text (str s) = s
stream_text _ = ""

abbrev pub member_pair : String × String → List (String × String) → Bool
member_pair key [] = false
member_pair (s, t) ((s', t') ∷ seen) = s == s' && (t == t') || member_pair (s, t) seen

abbrev pub is_nil : Items → Bool
is_nil nil = true
is_nil (cons x xs) = false

abbrev pub same_items : List String → Items → Bool
same_items [] nil = true
same_items (s ∷ ss) (cons x xs) = is_str s x && same_items ss xs
same_items _ _ = false

-- `value == [...]`, a list of texts
abbrev pub has_texts : List String → Json → Bool
has_texts ss (arr xs) = same_items ss xs
has_texts ss _ = false

abbrev pub epoch_keys : List String
epoch_keys =
    "epoch_id" ∷ "source_revision" ∷ "export_manifest_sha256" ∷ "tombstone_catalog"
    ∷ "epoch_manifest" ∷ []

module _ (error : String → Error) where
  unfoldable pub check_segments : Json → Result (Unit {0})
  unfolding bare_digest
  check_segments (arr xs) = elim (segment_texts xs) [
    | none ↦ err (error "manifest_segments_invalid")
    | some ss ↦ raise_if (not (distinct ss)) (error "manifest_segments_invalid") >> digests_check ss
  ]
  check_segments _ = err (error "manifest_segments_invalid")

  unfoldable pub check_supersede_entries : Items → Result (Unit {0})
  check_supersede_entries nil = ok tt
  check_supersede_entries (cons (obj e) xs) =
      raise_if
        (not (exact_keys ("stream" ∷ "target_id" ∷ "sustituida_por" ∷ []) e)
          || not (is_stream (get e "stream"))
          || not (is_text (get e "target_id"))
          || not (is_text (get e "sustituida_por")))
        (error "manifest_supersedes_map_invalid")
      >> check_supersede_entries xs
  check_supersede_entries (cons _ xs) = err (error "manifest_supersedes_map_invalid")

  unfoldable pub check_supersedes_map : Json → Result (Unit {0})
  unfolding check_supersede_entries
  check_supersedes_map null = ok tt
  check_supersedes_map (arr xs) = check_supersede_entries xs
  check_supersedes_map _ = err (error "manifest_supersedes_map_invalid")

  -- One entry of `refutations_map`; a target without a hash cannot be looked up in the set.
  unfoldable pub check_refutation : List (String × String) → Json → Result (String × String)
  unfolding bare_digest
  check_refutation seen (obj e) =
      let failed = error "manifest_refutations_map_invalid" in
      raise_if
        (not (exact_keys ("stream" ∷ "target_record_sha256" ∷ "refutation_id" ∷ []) e)
          || not (is_stream (get e "stream")))
        failed
      >> elim (get e "target_record_sha256") [
        | str target ↦
            raise_if (member_pair (stream_text (get e "stream"), target) seen) failed
            >> or_fail (digest_check (str target)) failed
            >> or_fail (digest_check (get e "refutation_id")) failed
            >> ok (stream_text (get e "stream"), target)
        | arr xs ↦ err type_error
        | obj fs ↦ err type_error
        | _ ↦ err failed
      ]
  check_refutation seen _ = err (error "manifest_refutations_map_invalid")

  unfoldable pub check_refutations : Items → List (String × String) → Result (Unit {0})
  unfolding check_refutation
  check_refutations nil seen = ok tt
  check_refutations (cons x xs) seen =
      check_refutation seen x >>= λ key. check_refutations xs (key ∷ seen)

  unfoldable pub check_epoch : Json → Result (Unit {0})
  unfolding bare_digest is_canonical_uuid
  check_epoch (obj e) =
      let failed = error "manifest_compaction_epoch_invalid" in
      raise_if (not (exact_keys epoch_keys e)) failed
      >> raise_if (not (is_canonical_uuid (get e "epoch_id"))) failed
      >> or_fail (digest_check (get e "source_revision")) failed
      >> or_fail (digest_check (get e "export_manifest_sha256")) failed
      >> or_fail (digest_check (get e "tombstone_catalog")) failed
      >> or_fail (digest_check (get e "epoch_manifest")) failed
  check_epoch _ = err (error "manifest_compaction_epoch_invalid")
