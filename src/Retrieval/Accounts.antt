-- ===== src/Retrieval/Accounts.antt =====
-- The accounts of a whole retrieval.
use an_kla_memory.Base.{ℕ, ◌+◌, ◌≤◌, ◌≡◌, ◌&&◌, String, Option, List, length, arith, ok}
use an_kla_memory.Base.{>>=-eq-ok, subst}
use an_kla_memory.Base.Int.{ℤ, pos, negsuc}
use an_kla_memory.Base.Text.{Unicode, words}
use an_kla_memory.Json.{Json}
use an_kla_memory.WritePolicy.Types.{Stream}
use an_kla_memory.Store.Rows.{Rows}
use an_kla_memory.Retrieval.Rank.{scan, drop_zero, sort_ranked, terms, pool, no_exclusions}
use an_kla_memory.Retrieval.Select.{Index, Clock}
use an_kla_memory.Retrieval.Run.{
  Profile, Retrieved, Request, run, check_amounts, check_profile, check_freshness,
}
use an_kla_memory.Retrieval.Run.{check_streams, retrieve_under_gate, is_index, has_terms}
use an_kla_memory.Retrieval.Budget.{
  total_cost, select_within, excluded_total, scan-total, sort_ranked-length,
}
use an_kla_memory.Retrieval.Budget.{drop_zero-total, select-total}
use an_kla_memory.Retrieval.IndexFree.{narrow-ranked, drop_zero-scored}

-- The accepted amounts are those of the request.
check_amounts-eq-ok :
    (budget fixed per_record : ℤ) {b f p : ℕ}
    → check_amounts budget fixed per_record ≡ ok (b, f, p)
    → (budget ≡ pos b) × (fixed ≡ pos f) × (f ≤ b)
unfolding check_amounts
check_amounts-eq-ok (negsuc n) fixed per_record h = cc
check_amounts-eq-ok (pos n) (negsuc f) per_record h = cc
check_amounts-eq-ok (pos n) (pos f) (negsuc p) h = cc
check_amounts-eq-ok (pos n) (pos f) (pos p) h = ground arith

module _ (u : Unicode) (show : Json → String) where
  run-accounts :
      (profile : Profile) (index : Index) (revision : String) (rows : Rows) (streams : List Stream)
      (query : String) (limit fixed per_record : ℕ) (clock : Option Clock)
      → fixed ≤ limit
      → let r = run u show profile index revision rows streams query limit fixed per_record clock in
        (r.selection.used ≡ fixed + total_cost r.selection.selected)
        × (r.selection.used ≤ limit)
        × (length r.selection.selected + excluded_total r.selection.excluded
            ≡ length (pool u show rows streams))
  unfolding run
  run-accounts profile index revision rows streams query limit fixed per_record clock h =
      let records = pool u show rows streams in
      let scanned = scan u show (terms u query) no_exclusions records in
      let scored = drop_zero scanned.1 (sort_ranked scanned.0) in
      let same =
        narrow-ranked (is_index profile && has_terms (words u query)) index scored.0
          (drop_zero-scored scanned.1 (sort_ranked scanned.0)) in
      let (used, within) = select_within clock limit per_record fixed scored.1 scored.0 h in
      rw same (
        used,
        within,
        omega (
          arith,
          scan-total u show (terms u query) no_exclusions records,
          sort_ranked-length scanned.0,
          drop_zero-total scanned.1 (sort_ranked scanned.0),
          select-total clock limit per_record fixed scored.1 scored.0,
        ),
      )

  abbrev pub IsAccounted : Rows → Request → Retrieved → Type 0
  IsAccounted rows q r =
      (q.budget ≡ pos r.limit)
      × (q.fixed_overhead ≡ pos r.fixed)
      × (r.selection.used ≡ r.fixed + total_cost r.selection.selected)
      × (r.selection.used ≤ r.limit)
      × (length r.selection.selected + excluded_total r.selection.excluded
          ≡ length (pool u show rows r.streams_searched))

  -- A retrieval that returns uses exactly the reserve and the cost of the selected items, which is
  -- within the budget of the request; and every record of the searched streams is either selected
  -- or counted under exactly one reason.
  pub retrieve_under_gate-accounts :
      (now : ℕ) (index : Index) (revision : String) (rows : Rows) (q : Request) {r : Retrieved}
      → retrieve_under_gate u show now index (ok (revision, rows)) q ≡ ok r
      → IsAccounted rows q r
  unfolding retrieve_under_gate run
  retrieve_under_gate-accounts now index revision rows q {r = r} h =
      let (amounts, h₁, checked) =
        >>=-eq-ok (check_amounts q.budget q.fixed_overhead q.per_record_overhead) _ h in
      let (profile, h₂, _) = >>=-eq-ok (check_profile q.profile) _ h₁ in
      let (fresh, h₃, _) =
        >>=-eq-ok (check_freshness now q.freshness_profile q.now q.stale_after_days) _ h₂ in
      let (streams, h₄, _) = >>=-eq-ok (check_streams q.streams) _ h₃ in
      let result =
        run u show profile index revision rows streams q.query amounts.0 amounts.1 amounts.2
          fresh in
      let same : result ≡ r = cc h₄ in
      let (b, f, below) =
        check_amounts-eq-ok q.budget q.fixed_overhead q.per_record_overhead checked in
      let accounts =
        run-accounts profile index revision rows streams q.query amounts.0 amounts.1 amounts.2 fresh
          below in
      subst (IsAccounted rows q) same (b, f, accounts.0, accounts.1, accounts.2)
