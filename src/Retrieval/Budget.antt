-- ===== src/Retrieval/Budget.antt =====
-- The budget holds, and no record of the searched streams goes uncounted.
use an_kla_memory.Base.{ℕ, suc, ◌+◌, ◌≤◌, ◌≡◌, refl, String, Option, List, []}
use an_kla_memory.Base.{◌∷◌, ltb, eqb, length, arith, Bool-cases, ◌⊎◌, inl, inr}
use an_kla_memory.Base.Text.{Unicode}
use an_kla_memory.Json.{Json, Fields}
use an_kla_memory.WritePolicy.Types.{Stream}
use an_kla_memory.Retrieval.Rank.{
  Reason, inactive, zero_score, budget, invalid_record, no_text, Excluded,
}
use an_kla_memory.Retrieval.Rank.{
  note, Candidate, Verdict, kept, dropped, classify, scan, insert_ranked, sort_ranked,
}
use an_kla_memory.Retrieval.Rank.{drop_zero}
use an_kla_memory.Retrieval.Select.{Item, select, Clock, cost_of}

abbrev pub total_cost : List Item → ℕ
total_cost [] = 0
total_cost (i ∷ is) = i.cost + total_cost is

-- What is used is the reserve and the cost of what was selected, and stays within the budget.
pub select_within :
    (clock : Option Clock) (limit per_record used : ℕ) (e : Excluded) (cs : List Candidate)
    → used ≤ limit
    → let s = select clock limit per_record used e cs in
      (s.used ≡ used + total_cost s.selected) × (s.used ≤ limit)
unfolding select
select_within clock limit per_record used e [] h = (omega arith, h)
select_within clock limit per_record used e (c ∷ cs) h =
    elim (Bool-cases (ltb limit (used + cost_of per_record c))) [
      | inl over ↦ rw over (select_within clock limit per_record used (note budget c.id e) cs h)
      | inr fits ↦
          let later =
            select_within clock limit per_record (used + cost_of per_record c) e cs
              (ground arith) in
          rw fits (omega (arith, later.0), later.1)
    ]

-- All that the counters have counted.
abbrev pub excluded_total : Excluded → ℕ
excluded_total e =
    e.inactive_rows.count + e.zero_rows.count + e.budget_rows.count + e.invalid_rows.count
    + e.no_text_rows.count

note-total :
    (why : Reason) (id : String) (e : Excluded)
    → excluded_total (note why id e) ≡ suc (excluded_total e)
unfolding note
note-total inactive id e = omega arith
note-total zero_score id e = omega arith
note-total budget id e = omega arith
note-total invalid_record id e = omega arith
note-total no_text id e = omega arith

Verdict-cases :
    (v : Verdict)
    → ((c : Candidate) × (v ≡ kept c)) ⊎ ((why : Reason) × (id : String) × (v ≡ dropped why id))
Verdict-cases (kept c) = inl (c, refl)
Verdict-cases (dropped why id) = inr (why, id, refl)

module _ (u : Unicode) (show : Json → String) where
  pub scan-total :
      (query_terms : List String) (e : Excluded) (rest : List (Stream × Fields))
      → let s = scan u show query_terms e rest in
        length s.0 + excluded_total s.1 ≡ length rest + excluded_total e
  unfolding scan
  scan-total query_terms e [] = refl
  scan-total query_terms e ((stream, row) ∷ rest) =
      elim (Verdict-cases (classify u show query_terms stream row)) [
        | inl (c, found) ↦ rw (found, scan) (omega (arith, scan-total query_terms e rest))
        | inr (why, id, found) ↦
            rw (found, scan)
              (omega (arith, scan-total query_terms (note why id e) rest, note-total why id e))
      ]

insert_ranked-length :
    (c : Candidate) (cs : List Candidate) → length (insert_ranked c cs) ≡ suc (length cs)
unfolding insert_ranked
insert_ranked-length c [] = refl
insert_ranked-length c (d ∷ ds) = ground (arith, insert_ranked-length c ds)

pub sort_ranked-length : (cs : List Candidate) → length (sort_ranked cs) ≡ length cs
unfolding sort_ranked
sort_ranked-length [] = refl
sort_ranked-length (c ∷ cs) =
    omega (arith, insert_ranked-length c (sort_ranked cs), sort_ranked-length cs)

pub drop_zero-total :
    (e : Excluded) (cs : List Candidate)
    → let s = drop_zero e cs in length s.0 + excluded_total s.1 ≡ length cs + excluded_total e
unfolding drop_zero
drop_zero-total e [] = refl
drop_zero-total e (c ∷ cs) = elim (Bool-cases (eqb c.score 0)) [
  | inl none_found ↦
      rw none_found
        (omega (arith, drop_zero-total (note zero_score c.id e) cs, note-total zero_score c.id e))
  | inr some_found ↦ rw some_found (omega (arith, drop_zero-total e cs))
]

pub select-total :
    (clock : Option Clock) (limit per_record used : ℕ) (e : Excluded) (cs : List Candidate)
    → let s = select clock limit per_record used e cs in
      length s.selected + excluded_total s.excluded ≡ length cs + excluded_total e
unfolding select
select-total clock limit per_record used e [] = refl
select-total clock limit per_record used e (c ∷ cs) =
    elim (Bool-cases (ltb limit (used + cost_of per_record c))) [
      | inl over ↦ rw over (
          omega (
            arith,
            select-total clock limit per_record used (note budget c.id e) cs,
            note-total budget c.id e,
          ))
      | inr fits ↦
          rw fits
            (omega (arith, select-total clock limit per_record (used + cost_of per_record c) e cs))
    ]
