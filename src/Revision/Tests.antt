-- ===== src/Revision/Tests.antt =====
-- A chain of two revisions for each theorem on the walk.
use an_kla_memory.Base.{
  String, ◌==◌, ◌≡◌, ◌≢◌, refl, true, false, none, some, List, [], ◌∷◌, ◌++◌, ok, err,
}
use an_kla_memory.Base.{if◌then◌else◌, Result, integrity, All, distinct}
use an_kla_memory.Base.Int.{pos}
use an_kla_memory.Json.{Json, Fields, nil, field, end, str, num, obj, get, is_str}
use an_kla_memory.Canonical.Identifiers.{bare_digest}
use an_kla_memory.Revision.Walk.{Node, walk_revisions, out_of_fuel, finished, summarize, bound}
use an_kla_memory.Revision.Walk.{visit_revision}
use an_kla_memory.Revision.Chain.{walk_revisions-ends}
use an_kla_memory.Revision.Lineage.{IsChain, identifiers, walk_revisions-IsChain, summarize-bound}
use an_kla_memory.Revision.Builder.{SegmentIds, build_child_manifest, build_child_manifest-visited}

abbrev root_id : String
root_id = "sha256:1111111111111111111111111111111111111111111111111111111111111111"

abbrev child_id : String
child_id = "sha256:2222222222222222222222222222222222222222222222222222222222222222"

abbrev identity : String
identity = "sha256:3333333333333333333333333333333333333333333333333333333333333333"

abbrev root_manifest : Fields
root_manifest =
    field "schema" (str "an-kla/revision-v1")
      (field "revision" (num (pos 0)) (field "store_identity" (str identity) end))

abbrev no_segments : SegmentIds
no_segments = record { facts = []; events = []; episodes = [] }

abbrev child_manifest : Fields
child_manifest = field "schema" (str "an-kla/revision-v1") (
    field "revision" (num (pos 1)) (
      field "parent" (str root_id) (
        field "facts_segments" (Json.arr nil) (
          field "events_segments" (Json.arr nil) (
            field "episodes_segments" (Json.arr nil) (
              field "checkpoint" (str root_id) (
                field "transaction_id" (str "t-1") (
                  field "canonicalization" (str "canonical-json/v1") (
                    field "integrity_claim" (str "content_identity_not_truth_or_authorship")
                      (field "store_identity" (str identity) end))))))))))

abbrev objects : String → Result Json
objects id =
    if id == child_id
    then ok (obj child_manifest)
    else if id == root_id
    then ok (obj root_manifest)
    else err (integrity "object_missing")

abbrev both : List Node
both = (child_id, child_manifest) ∷ (root_id, root_manifest) ∷ []

walked : walk_revisions objects child_id ≡ (both, finished)
unfolding walk_revisions visit_revision bare_digest
walked = refl

walk_revisions-ends_example : (walk_revisions objects child_id).1 ≢ out_of_fuel
walk_revisions-ends_example = walk_revisions-ends objects child_id

ended : (walk_revisions objects child_id).1 ≡ finished
unfolding walk_revisions visit_revision bare_digest
ended = refl

walk_revisions-IsChain_example :
    (IsChain objects none child_id (walk_revisions objects child_id).0)
    × (distinct (identifiers (walk_revisions objects child_id).0) ≡ true)
walk_revisions-IsChain_example = walk_revisions-IsChain objects child_id ended

root_bound : bound (summarize identity true both) false root_id ≡ true
unfolding bound summarize
root_bound = refl

summarize-bound_example :
    (true ≡ true)
    × (above : List Node) × (manifest : Fields) × (below : List Node) × (both
        ≡ above ++ ((root_id, manifest) ∷ below))
    × All (λ (node : Node). is_str identity (get node.1 "store_identity") ≡ true) above
    × (is_str identity (get manifest "store_identity") ≡ true)
summarize-bound_example = summarize-bound identity root_id both true root_bound

built :
    build_child_manifest root_manifest 1 root_id no_segments root_id "t-1" "write"
      (some identity)
      nil
      nil
    ≡ ok child_manifest
unfolding build_child_manifest
built = refl

child_named :
    bare_digest child_id ≡ ok "2222222222222222222222222222222222222222222222222222222222222222"
unfolding bare_digest
child_named = refl

root_named :
    bare_digest root_id ≡ ok "1111111111111111111111111111111111111111111111111111111111111111"
unfolding bare_digest
root_named = refl

build_child_manifest-visited_example :
    visit_revision objects none [] child_id ≡ ok (child_manifest, 1, some root_id)
build_child_manifest-visited_example =
    build_child_manifest-visited root_manifest root_id no_segments root_id "t-1" "write"
      (some identity) nil nil objects 0 child_id built child_named root_named refl
