-- ===== src/Retrieval/Run.antt =====
-- `_retrieve_under_gate` and `empty_reason_for`: the checks of the arguments, the run, the result.
use an_kla_memory.Base.{
  ℕ, String, ◌==◌, Bool, true, false, not, ◌&&◌, ◌||◌, Option, none, some, List, [], ◌∷◌, map,
}
use an_kla_memory.Base.{
  if◌then◌else◌, ltb, Result, ok, err, raise_if, ◌>>=◌, ◌>>◌, value_error, temporal,
}
use an_kla_memory.Base.Int.{ℤ, pos, negsuc}
use an_kla_memory.Base.Text.{Unicode, words}
use an_kla_memory.Json.{Json, Fields, null}
use an_kla_memory.Record.Freshness.{validate_stale_after_days, Counts, summarize_freshness}
use an_kla_memory.WritePolicy.Types.{Stream, stream_of, facts, stream_name}
use an_kla_memory.Store.Rows.{Rows}
use an_kla_memory.Retrieval.Rank.{no_exclusions, terms, pool, scan, sort_ranked, drop_zero}
use an_kla_memory.Retrieval.Select.{Index, narrow, Clock, Selection, select, Item}

pub data Profile : Type 0 where
  scan_fallback fts_index : Profile

-- `SUPPORTED_PROFILES`
abbrev pub profile_of : String → Option Profile
profile_of s =
    if s == "scan-fallback/v1"
    then some scan_fallback
    else if s == "sqlite-fts5/v1"
    then some fts_index
    else none

abbrev pub is_index : Profile → Bool
is_index fts_index = true
is_index scan_fallback = false

-- The arguments of a call. `now` and the clock are microseconds; `null` is `None`.
pub record Request : Type 0 where
  pub query : String
  pub budget : ℤ
  pub fixed_overhead : ℤ
  pub per_record_overhead : ℤ
  pub profile : String
  pub streams : Option (List String)
  pub freshness_profile : Option String
  pub now : Option ℕ
  pub stale_after_days : Json

-- The three amounts, which must not be negative, nor the fixed one above the budget.
unfoldable pub check_amounts : ℤ → ℤ → ℤ → Result (ℕ × ℕ × ℕ)
check_amounts (negsuc b) fixed per_record = err (value_error "negative_budget")
check_amounts (pos b) (pos f) (pos p) =
    raise_if (ltb b f) (value_error "fixed_overhead_exceeds_budget") >> ok (b, f, p)
check_amounts (pos b) fixed per_record = err (value_error "negative_overhead")

unfoldable pub check_profile : String → Result Profile
check_profile s = elim (profile_of s) [
  | none ↦ err (value_error "unsupported_retrieval_profile")
  | some p ↦ ok p
]

abbrev is_set : Option ℕ → Bool
is_set none = false
is_set (some n) = true

abbrev is_none : Json → Bool
is_none null = true
is_none _ = false

-- `clock` is `datetime.now(timezone.utc)`.
unfoldable pub check_freshness : ℕ → Option String → Option ℕ → Json → Result (Option Clock)
unfolding validate_stale_after_days
check_freshness clock none now stale =
    raise_if (is_set now || not (is_none stale)) (temporal "freshness_profile_required") >> ok none
check_freshness clock (some profile) now stale =
    raise_if (not (profile == "computed-age/v1")) (temporal "unsupported_freshness_profile")
    >> (validate_stale_after_days stale >>= λ threshold.
        ok (some (elim now [ none ↦ clock | some t ↦ t ], threshold)))

abbrev stream_member : Stream → List Stream → Bool
stream_member s [] = false
stream_member s (t ∷ ts) = stream_name s == stream_name t || stream_member s ts

-- The streams in the caller's order, each once; `seen` are those met before.
unfoldable pub parse_streams : List Stream → List String → Result (List Stream)
unfolding stream_of
parse_streams seen [] = ok []
parse_streams seen (name ∷ names) = elim (stream_of name) [
  | none ↦ err (value_error "unsupported_retrieval_stream")
  | some s ↦
      let again = parse_streams seen names in
      let first = parse_streams (s ∷ seen) names >>= λ rest. ok (s ∷ rest) in
      if stream_member s seen then again else first
]

unfoldable pub check_streams : Option (List String) → Result (List Stream)
unfolding parse_streams
check_streams none = ok (facts ∷ [])
check_streams (some []) = err (value_error "unsupported_retrieval_stream")
check_streams (some (name ∷ names)) = parse_streams [] (name ∷ names)

-- The result; the summary, the detail and the flags of truncation are read off the tallies of
-- `selection.excluded`.
pub record Retrieved : Type 0 where
  pub revision : String
  pub requested : Profile
  pub by_index : Bool
  pub degradation : String
  pub streams_searched : List Stream
  pub limit : ℕ
  pub fixed : ℕ
  pub per_record : ℕ
  pub selection : Selection
  pub clock : Option Clock
  pub freshness : Option Counts
  pub schema : String
  pub empty_reason : Option String

abbrev no_items : List Item → Bool
no_items [] = true
no_items (item ∷ items) = false

abbrev pub has_terms : List String → Bool
has_terms [] = false
has_terms (w ∷ ws) = true

-- `empty_reason_for`, from the result's selection; a reason with a count of 0 is not in the summary.
unfoldable pub empty_reason_for : Selection → ℕ → Option String
empty_reason_for s transport_excluded =
    if not (no_items s.selected)
    then none
    else if ltb 0 transport_excluded
    then none
    else if ltb 0 s.excluded.budget_rows.count
    then none
    else if ltb s.excluded.zero_rows.count 1
    then none
    else some "no_lexical_overlap"

abbrev schema_of : Option String → Option Clock → String
schema_of (some reason) clock = "an-kla/retrieval-result-v3"
schema_of none (some c) = "an-kla/retrieval-result-v2"
schema_of none none = "an-kla/retrieval-result-v1"

abbrev item_fields : Item → Fields
item_fields i = i.freshness

module _ (u : Unicode) (show : Json → String) where
  -- The run on validated arguments.
  unfoldable pub run :
      Profile → Index → String → Rows → List Stream → String → ℕ → ℕ → ℕ → Option Clock → Retrieved
  unfolding scan drop_zero sort_ranked select narrow empty_reason_for summarize_freshness
  run profile index revision rows streams query limit fixed per_record clock =
      let scanned = scan u show (terms u query) no_exclusions (pool u show rows streams) in
      let scored = drop_zero scanned.1 (sort_ranked scanned.0) in
      let found = narrow (is_index profile && has_terms (words u query)) index scored.0 in
      let chosen = select clock limit per_record fixed scored.1 found.ranked in
      record {
        revision = revision;
        requested = profile;
        by_index = found.by_index;
        degradation = found.degradation;
        streams_searched = streams;
        limit = limit;
        fixed = fixed;
        per_record = per_record;
        clock = clock;
        schema = schema_of (empty_reason_for chosen 0) clock;
        selection = chosen;
        freshness = elim clock [
          | none ↦ none
          | some c ↦ some (summarize_freshness (map item_fields chosen.selected))
        ];
        empty_reason = empty_reason_for chosen 0;
      }

  -- The checks in their order, then the snapshot, then the run.
  unfoldable pub retrieve_under_gate :
      ℕ → Index → Result (String × Rows) → Request → Result Retrieved
  unfolding check_amounts check_profile check_freshness check_streams run
  retrieve_under_gate clock index snapshot q = do
    amounts ← check_amounts q.budget q.fixed_overhead q.per_record_overhead
    profile ← check_profile q.profile
    fresh ← check_freshness clock q.freshness_profile q.now q.stale_after_days
    streams ← check_streams q.streams
    base ← snapshot
    ok (run profile index base.0 base.1 streams q.query amounts.0 amounts.1 amounts.2 fresh)
