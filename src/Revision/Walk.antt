-- ===== src/Revision/Walk.antt =====
-- `walk_revisions` and `_LineageSummary` of an_kla/revision_walk.py. The walk is a generator: what
-- it yields before it ends or raises is a list, with the way it ended.
use an_kla_memory.Base.{
  ℕ, zero, suc, ◌==◌, String, Bool, true, false, not, ◌&&◌, ◌||◌, Option, none, some,
}
use an_kla_memory.Base.{
  List, [], ◌∷◌, if◌then◌else◌, eqb, member, Error, revision_walk, Result, ok, err,
}
use an_kla_memory.Base.{raise_if, ◌>>=◌, ◌>>◌}
use an_kla_memory.Base.Int.{pos}
use an_kla_memory.Json.{Json, Fields, null, num, str, obj, get, is_str}
use an_kla_memory.Canonical.Identifiers.{bare_digest}

-- A revision that was visited: its identifier and its manifest.
abbrev pub Node : Type 0
Node = String × Fields

pub data Ending : Type 0 where
  finished out_of_fuel : Ending
  raised : Error → Ending

abbrev schema_v1 : String
schema_v1 = "an-kla/revision-v1"

abbrev schema_v3 : String
schema_v3 = "an-kla/revision-v3"

abbrev pub is_schema : Json → Bool
is_schema v = is_str schema_v1 v || is_str "an-kla/revision-v2" v || is_str schema_v3 v

-- `isinstance(revision, int) and not isinstance(revision, bool) and revision >= 0`
abbrev pub revision_number : Json → Option ℕ
revision_number (num (pos n)) = some n
revision_number _ = none

-- `child_revision is None or revision == child_revision - 1`
abbrev pub is_below : Option ℕ → ℕ → Bool
is_below none n = true
is_below (some child) n = eqb child (suc n)

abbrev is_root : Json → ℕ → Bool
is_root schema n =
    (is_str schema_v1 schema && eqb n 0) || (is_str schema_v3 schema && not (eqb n 0))

-- The parent, if there is one, by the schema, the number and the value of "parent".
unfoldable pub parent_in : Json → ℕ → Json → Result (Option String)
unfolding bare_digest
parent_in schema n null = raise_if (not (is_root schema n)) revision_walk >> ok none
parent_in schema n (str parent) =
    raise_if (eqb n 0) revision_walk >> (bare_digest parent >>= λ bare. ok (some parent))
parent_in schema n _ = err revision_walk

-- What follows once the number is known.
unfoldable pub check_numbered : Option ℕ → Fields → Option ℕ → Result (Fields × ℕ × Option String)
unfolding parent_in
check_numbered child manifest none = err revision_walk
check_numbered child manifest (some n) =
    raise_if (not (is_schema (get manifest "schema")) || not (is_below child n)) revision_walk
    >> (parent_in (get manifest "schema") n (get manifest "parent") >>= λ parent.
        ok (manifest, n, parent))

-- The checks of one manifest, with its revision number and its parent.
unfoldable pub check_manifest : Option ℕ → Json → Result (Fields × ℕ × Option String)
unfolding check_numbered
check_manifest child (obj manifest) =
    check_numbered child manifest (revision_number (get manifest "revision"))
check_manifest child _ = err revision_walk

-- `read` is `store._read_json_object("revisions", identifier)`.
module _ (read : String → Result Json) where
  unfoldable pub visit_revision :
      Option ℕ → List String → String → Result (Fields × ℕ × Option String)
  unfolding check_manifest bare_digest
  visit_revision child seen cursor = bare_digest cursor >>= λ bare.
      raise_if (member cursor seen) revision_walk
      >> (read cursor >>= λ manifest. check_manifest child manifest)

  -- The loop `while True`, on fuel.
  unfoldable pub walk : ℕ → Option ℕ → List String → String → List Node × Ending
  unfolding visit_revision
  walk zero child seen cursor = ([], out_of_fuel)
  walk (suc fuel) child seen cursor = elim (visit_revision child seen cursor) [
    | err error ↦ ([], raised error)
    | ok (manifest, n, none) ↦ ((cursor, manifest) ∷ [], finished)
    | ok (manifest, n, some parent) ↦
        let below = walk fuel (some n) (cursor ∷ seen) parent in
        ((cursor, manifest) ∷ below.0, below.1)
  ]

  -- Every revision below the first one has a smaller number, so the number of the first one
  -- bounds the rounds.
  abbrev pub rounds : String → ℕ
  rounds current = elim (visit_revision none [] current) [
    | ok (manifest, n, parent) ↦ suc (suc n)
    | err error ↦ 1
  ]

  unfoldable pub walk_revisions : String → List Node × Ending
  unfolding walk
  walk_revisions current = walk (rounds current) none [] current

-- `_LineageSummary`: for each revision whether it and all above it name `identity`, and whether
-- all above it do and it names no identity at all.
unfoldable pub summarize : String → Bool → List Node → List (String × Bool × Bool)
summarize identity prefix_ok [] = []
summarize identity prefix_ok ((id, manifest) ∷ nodes) =
    let linked = get manifest "store_identity" in
    let strict = prefix_ok && is_str identity linked in
    let legacy = prefix_ok && elim linked [ null ↦ true | _ ↦ false ] in
    (id, strict, legacy) ∷ summarize identity strict nodes

abbrev pub point : String → List (String × Bool × Bool) → Bool × Bool
point id [] = (false, false)
point id ((key, strict, legacy) ∷ points) = if key == id then (strict, legacy) else point id points

-- `bound`
unfoldable pub bound : List (String × Bool × Bool) → Bool → String → Bool
bound points allow_legacy id = let flags = point id points in flags.0 || allow_legacy && flags.1
