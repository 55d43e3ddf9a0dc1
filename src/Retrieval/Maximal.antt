-- ===== src/Retrieval/Maximal.antt =====
-- What the budget leaves out would not fit.
use an_kla_memory.Base.{
  ℕ, ◌+◌, ◌≤◌, ◌<◌, ◌≡◌, refl, sym, subst, String, true, false, ◌&&◌, Option, List, [], ◌∷◌, ltb,
  arith, ◌⊎◌, inl, inr,
}
use an_kla_memory.Base.{All, Bool-cases, ltb→lt}
use an_kla_memory.Base.Text.{Unicode, words}
use an_kla_memory.Json.{Json}
use an_kla_memory.WritePolicy.Types.{Stream}
use an_kla_memory.Store.Rows.{Rows}
use an_kla_memory.Retrieval.Rank.{
  Candidate, Excluded, drop_zero, note, budget, scan, sort_ranked, terms, pool, no_exclusions,
}
use an_kla_memory.Retrieval.Select.{Index, Item, Clock, Selection, select, cost_of, item_of}
use an_kla_memory.Retrieval.Run.{Profile, run, is_index, has_terms}
use an_kla_memory.Retrieval.IndexFree.{drop_zero-scored, narrow-ranked}
use mathlib.Core.List.{Mem, mem-cons_self, mem-cons_of_mem}

module _ (clock : Option Clock) (limit per_record : ℕ) where
  -- Either selected, or too large for what is left of the budget.
  abbrev IsSettledBy : List Item → ℕ → Candidate → Type 0
  IsSettledBy items used c =
      Mem (item_of clock per_record c) items ⊎ (limit < used + cost_of per_record c)

  abbrev pub IsSettled : List Candidate → Selection → Type 0
  IsSettled cs s = All (IsSettledBy s.selected s.used) cs

  used_mono :
      (used : ℕ) (e : Excluded) (cs : List Candidate)
      → used ≤ (select clock limit per_record used e cs).used
  unfolding select
  used_mono used e [] = omega arith
  used_mono used e (c ∷ cs) =
      ground (
        arith,
        used_mono used (note budget c.id e) cs,
        used_mono (used + cost_of per_record c) e cs,
      )

  All-there :
      (item : Item) (used : ℕ) (items : List Item) (cs : List Candidate)
      → All (IsSettledBy items used) cs
      → All (IsSettledBy (item ∷ items) used) cs
  All-there item used items [] h = tt
  All-there item used items (c ∷ cs) (inl m, h) =
      (inl (mem-cons_of_mem item m), All-there item used items cs h)
  All-there item used items (c ∷ cs) (inr m, h) = (inr m, All-there item used items cs h)

  select-over :
      (used : ℕ) (e : Excluded) (c : Candidate) (cs : List Candidate)
      → ltb limit (used + cost_of per_record c) ≡ true
      → select clock limit per_record used e (c ∷ cs)
        ≡ select clock limit per_record used (note budget c.id e) cs
  unfolding select
  select-over used e c cs h = rw h refl

  select-fits :
      (used : ℕ) (e : Excluded) (c : Candidate) (cs : List Candidate)
      → ltb limit (used + cost_of per_record c) ≡ false
      → let later = select clock limit per_record (used + cost_of per_record c) e cs in
        select clock limit per_record used e (c ∷ cs)
        ≡ record later { selected = item_of clock per_record c ∷ later.selected }
  unfolding select
  select-fits used e c cs h = rw h refl

  select-settles :
      (used : ℕ) (e : Excluded) (cs : List Candidate)
      → IsSettled cs (select clock limit per_record used e cs)
  select-settles used e [] = tt
  select-settles used e (c ∷ cs) = elim (Bool-cases (ltb limit (used + cost_of per_record c))) [
    | inl over ↦ subst (IsSettled (c ∷ cs)) (sym (select-over used e c cs over)) (
      inr (omega (arith, ltb→lt _ _ over, used_mono used (note budget c.id e) cs)),
      select-settles used (note budget c.id e) cs,
    )
    | inr fits ↦
        let later = select clock limit per_record (used + cost_of per_record c) e cs in
        subst (IsSettled (c ∷ cs)) (sym (select-fits used e c cs fits)) (
          inl mem-cons_self,
          All-there (item_of clock per_record c) later.used later.selected cs
              (select-settles (used + cost_of per_record c) e cs),
        )
  ]

module _ (u : Unicode) (show : Json → String) where
  -- Every candidate with a term of the query is selected, or its cost on top of all that is used
  -- exceeds the budget: none that was passed over could still be added.
  pub run-settles :
      (profile : Profile) (index : Index) (revision : String) (rows : Rows) (streams : List Stream)
      (query : String) (limit fixed per_record : ℕ) (clock : Option Clock)
      → let scanned = scan u show (terms u query) no_exclusions (pool u show rows streams) in
        IsSettled clock limit per_record
          (drop_zero scanned.1 (sort_ranked scanned.0)).0
          (run u show profile index revision rows streams query limit fixed per_record
            clock).selection
  unfolding run
  run-settles profile index revision rows streams query limit fixed per_record clock =
      let scanned = scan u show (terms u query) no_exclusions (pool u show rows streams) in
      let scored = drop_zero scanned.1 (sort_ranked scanned.0) in
      let positive = drop_zero-scored scanned.1 (sort_ranked scanned.0) in
      let same =
        narrow-ranked (is_index profile && has_terms (words u query)) index scored.0 positive in
      rw same (select-settles clock limit per_record fixed scored.1 scored.0)
