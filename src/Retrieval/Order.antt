-- ===== src/Retrieval/Order.antt =====
-- The order of the selected items.
use an_kla_memory.Base.{
  ℕ, ◌+◌, ◌≡◌, refl, String, Bool, true, false, ◌&&◌, List, [], ◌∷◌, ltb, arith,
}
use an_kla_memory.Base.{all, map, Option}
use an_kla_memory.Base.Text.{Unicode, words, codes}
use an_kla_memory.Base.TextOrder.{text_le_total, text_le_trans}
use an_kla_memory.Json.{Json}
use an_kla_memory.WritePolicy.Types.{Stream}
use an_kla_memory.Store.Rows.{Rows}
use an_kla_memory.Retrieval.Rank.{
  Excluded, scan, terms, pool, no_exclusions, Candidate, before, insert_ranked, sort_ranked,
  drop_zero, note, zero_score, budget,
}
use an_kla_memory.Retrieval.Select.{Index, Item, Clock, select, cost_of, item_of}
use an_kla_memory.Retrieval.Run.{Profile, run, is_index, has_terms}
use an_kla_memory.Retrieval.IndexFree.{has_score, drop_zero-scored, narrow-ranked}

-- A key of the order: a score and an identifier.
abbrev Key : Type 0
Key = ℕ × String

abbrev key_le : Key → Key → Bool
key_le a b = before a.0 a.1 b.0 b.1

abbrev key_of : Candidate → Key
key_of c = (c.score, c.id)

abbrev pub item_key : Item → Key
item_key i = (i.score, i.id)

key_le_total : (a b : Key) → key_le b a ≡ false → key_le a b ≡ true
unfolding before
key_le_total (s, i) (t, j) h = ground (arith, text_le_total (codes i) (codes j))

key_le_trans : (a b c : Key) → key_le a b ≡ true → key_le b c ≡ true → key_le a c ≡ true
unfolding before
key_le_trans (s, i) (t, j) (v, k) h h' = ground (arith, text_le_trans (codes i) (codes j) (codes k))

-- Every key is below all later ones.
abbrev pub is_ranked : List Key → Bool
is_ranked [] = true
is_ranked (a ∷ ks) = all (key_le a) ks && is_ranked ks

all-key_le :
    (a b : Key) (ks : List Key)
    → key_le a b ≡ true
    → all (key_le b) ks ≡ true
    → all (key_le a) ks ≡ true
all-key_le a b [] h k = refl
all-key_le a b (c ∷ cs) h k = ground (arith, all-key_le a b cs h, key_le_trans a b c h)

insert_ranked-below :
    (a : Key) (c : Candidate) (cs : List Candidate)
    → key_le a (key_of c) ≡ true
    → all (key_le a) (map key_of cs) ≡ true
    → all (key_le a) (map key_of (insert_ranked c cs)) ≡ true
unfolding insert_ranked
insert_ranked-below a c [] h k = ground arith
insert_ranked-below a c (d ∷ ds) h k = ground (arith, insert_ranked-below a c ds h)

insert_ranked-is_ranked :
    (c : Candidate) (cs : List Candidate)
    → is_ranked (map key_of cs) ≡ true
    → is_ranked (map key_of (insert_ranked c cs)) ≡ true
unfolding insert_ranked
insert_ranked-is_ranked c [] h = refl
insert_ranked-is_ranked c (d ∷ ds) h = ground (
  arith,
  insert_ranked-is_ranked c ds,
  insert_ranked-below (key_of d) c ds,
  key_le_total (key_of d) (key_of c),
  all-key_le (key_of c) (key_of d) (map key_of ds),
)

sort_ranked-is_ranked : (cs : List Candidate) → is_ranked (map key_of (sort_ranked cs)) ≡ true
unfolding sort_ranked
sort_ranked-is_ranked [] = refl
sort_ranked-is_ranked (c ∷ cs) =
    insert_ranked-is_ranked c (sort_ranked cs) (sort_ranked-is_ranked cs)

drop_zero-all :
    (p : Key → Bool) (e : Excluded) (cs : List Candidate)
    → all p (map key_of cs) ≡ true
    → all p (map key_of (drop_zero e cs).0) ≡ true
unfolding drop_zero
drop_zero-all p e [] h = refl
drop_zero-all p e (c ∷ cs) h =
    ground (arith, drop_zero-all p (note zero_score c.id e) cs, drop_zero-all p e cs)

drop_zero-is_ranked :
    (e : Excluded) (cs : List Candidate)
    → is_ranked (map key_of cs) ≡ true
    → is_ranked (map key_of (drop_zero e cs).0) ≡ true
unfolding drop_zero
drop_zero-is_ranked e [] h = refl
drop_zero-is_ranked e (c ∷ cs) h = ground (
  arith,
  drop_zero-is_ranked (note zero_score c.id e) cs,
  drop_zero-is_ranked e cs,
  drop_zero-all (key_le (key_of c)) e cs,
)

module _ (clock : Option Clock) (limit per_record : ℕ) where
  select-all :
      (p : Key → Bool) (used : ℕ) (e : Excluded) (cs : List Candidate)
      → all p (map key_of cs) ≡ true
      → all p (map item_key (select clock limit per_record used e cs).selected) ≡ true
  unfolding select item_of
  select-all p used e [] h = refl
  select-all p used e (c ∷ cs) h = ground (
    arith,
    select-all p used (note budget c.id e) cs,
    select-all p (used + cost_of per_record c) e cs,
  )

  select-is_ranked :
      (used : ℕ) (e : Excluded) (cs : List Candidate)
      → is_ranked (map key_of cs) ≡ true
      → is_ranked (map item_key (select clock limit per_record used e cs).selected) ≡ true
  unfolding select item_of
  select-is_ranked used e [] h = refl
  select-is_ranked used e (c ∷ cs) h = ground (
    arith,
    select-is_ranked used (note budget c.id e) cs,
    select-is_ranked (used + cost_of per_record c) e cs,
    select-all (key_le (key_of c)) (used + cost_of per_record c) e cs,
  )

abbrev pub is_scored : Key → Bool
is_scored k = ltb 0 k.0

scored_keys : (cs : List Candidate) → all has_score cs ≡ true → all is_scored (map key_of cs) ≡ true
scored_keys [] h = refl
scored_keys (c ∷ cs) h = ground (arith, scored_keys cs)

module _ (u : Unicode) (show : Json → String) where
  -- The selected items stand by falling score and, where scores are equal, by rising identifier in
  -- the order of code points; and each has a term of the query.
  pub run-is_ranked :
      (profile : Profile) (index : Index) (revision : String) (rows : Rows) (streams : List Stream)
      (query : String) (limit fixed per_record : ℕ) (clock : Option Clock)
      → let r = run u show profile index revision rows streams query limit fixed per_record clock in
        (is_ranked (map item_key r.selection.selected) ≡ true)
        × (all is_scored (map item_key r.selection.selected) ≡ true)
  unfolding run
  run-is_ranked profile index revision rows streams query limit fixed per_record clock =
      let scanned = scan u show (terms u query) no_exclusions (pool u show rows streams) in
      let sorted_rows = sort_ranked scanned.0 in
      let scored = drop_zero scanned.1 sorted_rows in
      let positive = drop_zero-scored scanned.1 sorted_rows in
      let same =
        narrow-ranked (is_index profile && has_terms (words u query)) index scored.0 positive in
      let order = drop_zero-is_ranked scanned.1 sorted_rows (sort_ranked-is_ranked scanned.0) in
      rw same (
        select-is_ranked clock limit per_record fixed scored.1 scored.0 order,
        select-all clock limit per_record is_scored fixed scored.1 scored.0
            (scored_keys scored.0 positive),
      )
