-- ===== src/Retrieval/IndexFree.antt =====
-- The index never changes what is selected.
use an_kla_memory.Base.{
  ℕ, ◌≡◌, refl, sym, ap, ◌∙◌, String, Bool, true, not, ◌&&◌, ◌||◌, Option, none, some,
}
use an_kla_memory.Base.{List, [], ◌∷◌, ltb, eqb, all, member, arith, Bool-cases, inl, inr}
use an_kla_memory.Base.Text.{Unicode, words}
use an_kla_memory.Json.{Json}
use an_kla_memory.WritePolicy.Types.{Stream}
use an_kla_memory.Store.Rows.{Rows}
use an_kla_memory.Retrieval.Rank.{
  Candidate, Excluded, note, zero_score, drop_zero, scan, sort_ranked, terms, pool, no_exclusions,
}
use an_kla_memory.Retrieval.Select.{Index, in_ids, use_ids, narrow, Clock, select}
use an_kla_memory.Retrieval.Run.{Profile, run, is_index, has_terms}

abbrev pub has_score : Candidate → Bool
has_score c = ltb 0 c.score

pub drop_zero-scored :
    (e : Excluded) (cs : List Candidate) → all has_score (drop_zero e cs).0 ≡ true
unfolding drop_zero
drop_zero-scored e [] = refl
drop_zero-scored e (c ∷ cs) = elim (Bool-cases (eqb c.score 0)) [
  | inl zero_found ↦ rw zero_found (drop_zero-scored (note zero_score c.id e) cs)
  | inr scored ↦ rw scored (ground (arith, drop_zero-scored e cs))
]

abbrev is_found : List String → Candidate → Bool
is_found ids c = not (ltb 0 c.score) || member c.id ids

in_ids-all :
    (ids : List String) (cs : List Candidate)
    → all has_score cs ≡ true
    → all (is_found ids) cs ≡ true
    → in_ids ids cs ≡ cs
unfolding in_ids
in_ids-all ids [] h k = refl
in_ids-all ids (c ∷ cs) h k = ground (arith, in_ids-all ids cs)

use_ids-ranked :
    (cs : List Candidate) (ids : Option (List String))
    → all has_score cs ≡ true
    → (use_ids cs ids).ranked ≡ cs
unfolding use_ids
use_ids-ranked cs none h = refl
use_ids-ranked cs (some ids) h = elim (Bool-cases (all (is_found ids) cs)) [
  | inl found ↦ rw found (in_ids-all ids cs h found)
  | inr lost ↦ rw lost refl
]

pub narrow-ranked :
    (wanted : Bool) (index : Index) (cs : List Candidate)
    → all has_score cs ≡ true
    → (narrow wanted index cs).ranked ≡ cs
unfolding narrow
narrow-ranked wanted index cs h = ground (arith, use_ids-ranked cs index.narrowed)

module _ (u : Unicode) (show : Json → String) where
  -- Whatever the index answers, and whatever profile is asked for, the same items are selected with
  -- the same use of the budget, and the same records are counted as left out for the same reasons.
  pub run-selection :
      (profile profile' : Profile) (index index' : Index) (revision : String) (rows : Rows)
      (streams : List Stream) (query : String) (limit fixed per_record : ℕ) (clock : Option Clock)
      → (run u show profile index revision rows streams query limit fixed per_record
          clock).selection
        ≡ (run u show profile' index' revision rows streams query limit fixed per_record
            clock).selection
  unfolding run
  run-selection profile profile' index index' revision rows streams query limit fixed per_record
        clock =
      let scanned = scan u show (terms u query) no_exclusions (pool u show rows streams) in
      let scored = drop_zero scanned.1 (sort_ranked scanned.0) in
      let positive = drop_zero-scored scanned.1 (sort_ranked scanned.0) in
      ap (select clock limit per_record fixed scored.1) (
        narrow-ranked (is_index profile && has_terms (words u query)) index scored.0 positive
        ∙ sym (
            narrow-ranked (is_index profile' && has_terms (words u query)) index' scored.0
              positive))
