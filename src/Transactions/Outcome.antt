-- ===== src/Transactions/Outcome.antt =====
-- `make_outcome` and `candidate_relation` of an_kla/transactions.py: what a commit reports.
use an_kla_memory.Base.{String, ◌==◌, ◌≡◌, refl, Bool, true, false, Option, none, some}
use an_kla_memory.Base.{List, if◌then◌else◌, member, arith, ◌↔◌, ◌≢◌}

pub data Relation : Type 0 where
  current ancestor orphan unknown : Relation

pub data Authority : Type 0 where
  candidate_authoritative parent_lineage_authoritative unclear : Authority

pub data AuditState : Type 0 where
  not_started prepared incomplete complete : AuditState

pub data Durability : Type 0 where
  complete incomplete unclear : Durability

pub data State : Type 0 where
  outcome_unknown durability_incomplete committed_audit_incomplete committed not_committed : State

-- The fields of an outcome that are computed; the others are copied from the arguments.
pub record Outcome : Type 0 where
  pub parent : Option String
  pub candidate : Option String
  pub observed : Option String
  pub relation : Relation
  pub state : State
  pub is_committed : Option Bool
  pub recorded : Option Bool
  pub authority : Authority
  pub audit : AuditState
  pub durability : Durability
  pub error_code : Option String

abbrev pub same_revision : Option String → Option String → Bool
same_revision none none = true
same_revision (some a) (some b) = a == b
same_revision _ _ = false

abbrev pub is_in_lineage : Relation → Bool
is_in_lineage current = true
is_in_lineage ancestor = true
is_in_lineage _ = false

-- Who is authoritative, and whether that means that the candidate was committed.
unfoldable pub authority_of : Relation → Option String → Option String → Authority × Option Bool
authority_of relation observed parent =
    if is_in_lineage relation
    then (candidate_authoritative, some true)
    else if same_revision observed parent
    then (parent_lineage_authoritative, some false)
    else (Authority.unclear, none)

abbrev is_complete : AuditState → Bool
is_complete AuditState.complete = true
is_complete _ = false

abbrev is_truly : Option Bool → Bool
is_truly (some true) = true
is_truly _ = false

-- The ladder of `state`.
unfoldable pub state_of : Authority → Durability → Option Bool → AuditState → State
state_of Authority.unclear durability is_committed audit = outcome_unknown
state_of _ Durability.incomplete is_committed audit = durability_incomplete
state_of _ _ is_committed audit =
    if is_truly is_committed
    then (if is_complete audit then committed else committed_audit_incomplete)
    else not_committed

unfoldable pub make_outcome :
    Option String
    → Option String
    → Option String
    → Relation
    → Option Bool
    → AuditState
    → Durability
    → Option String
    → Outcome
unfolding authority_of state_of
make_outcome parent candidate observed relation recorded audit durability error_code =
    let (authority, is_committed) = authority_of relation observed parent in
    record {
      parent = parent;
      candidate = candidate;
      observed = observed;
      relation = relation;
      state = state_of authority durability is_committed audit;
      is_committed = is_committed;
      recorded = recorded;
      authority = authority;
      audit = audit;
      durability = durability;
      error_code = error_code;
    }

-- `candidate_relation`; `audited` walks and validates the chain below a revision, and has no
-- value where that raises.
unfoldable pub candidate_relation :
    (String → Option (List String)) → Option String → Option String → Relation
candidate_relation audited none observed = unknown
candidate_relation audited (some candidate) none = unknown
candidate_relation audited (some candidate) (some head) =
    if candidate == head then current else elim (audited head) [
      | none ↦ unknown
      | some ids ↦ if member candidate ids then ancestor else orphan
    ]

-- A lineage with durable bytes: the audit decides.
in_lineage-committed :
    (durability : Durability) (audit : AuditState)
    → (state_of candidate_authoritative durability (some true) audit ≡ committed)
      ↔ ((durability ≢ Durability.incomplete) × (audit ≡ AuditState.complete))
unfolding state_of
in_lineage-committed Durability.incomplete audit = (λ h. cc, λ h. absurd (h.0 refl))
in_lineage-committed Durability.complete audit = (λ h. (λ e. cc, ground arith), λ h. ground arith)
in_lineage-committed Durability.unclear audit = (λ h. (λ e. cc, ground arith), λ h. ground arith)

outside-not_committed :
    (parent observed : Option String) (durability : Durability) (audit : AuditState)
    → let a = authority_of orphan observed parent in state_of a.0 durability a.1 audit ≢ committed
unfolding state_of authority_of
outside-not_committed parent observed Durability.incomplete audit h = ground arith
outside-not_committed parent observed Durability.complete audit h = ground arith
outside-not_committed parent observed Durability.unclear audit h = ground arith

-- "committed" is reported exactly for a candidate in the lineage of CURRENT, with a durability
-- other than incomplete and a complete audit, whatever the other arguments.
pub make_outcome-committed :
    (parent candidate observed : Option String) (relation : Relation) (recorded : Option Bool)
    (audit : AuditState) (durability : Durability) (code : Option String)
    → ((make_outcome parent candidate observed relation recorded audit durability code).state
        ≡ committed)
      ↔ ((is_in_lineage relation ≡ true)
          × (durability ≢ Durability.incomplete)
          × (audit ≡ AuditState.complete))
unfolding make_outcome
make_outcome-committed parent candidate observed current recorded audit durability code =
    let e = in_lineage-committed durability audit in
    (λ h. (refl, (e.0 h).0, (e.0 h).1), λ h. e.1 (h.1, h.2))
make_outcome-committed parent candidate observed ancestor recorded audit durability code =
    let e = in_lineage-committed durability audit in
    (λ h. (refl, (e.0 h).0, (e.0 h).1), λ h. e.1 (h.1, h.2))
make_outcome-committed parent candidate observed orphan recorded audit durability code =
    (λ h. absurd (outside-not_committed parent observed durability audit h), λ h. cc (h.0))
make_outcome-committed parent candidate observed unknown recorded audit durability code =
    (λ h. absurd (outside-not_committed parent observed durability audit h), λ h. cc (h.0))
