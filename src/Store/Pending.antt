-- ===== src/Store/Pending.antt =====
-- `pending` of `commit_write_plan` (an_kla/write_commit.py): the records that a commit takes from a
-- plan, for each stream, and what they are for the plan of a batch.
use an_kla_memory.Base.{String, ◌==◌, ◌≡◌, ◌≢◌, refl, sym, ap, ◌∙◌, Bool, true, false, not, ◌&&◌}
use an_kla_memory.Base.{some, List, [], ◌∷◌, ◌++◌, if◌then◌else◌, key_error, write_policy}
use an_kla_memory.Base.{Result, ok, raise_if, ◌>>=◌, ◌>>◌, >>=-eq-ok, cons_results-eq-ok, ok_inj}
use an_kla_memory.Base.{inl, inr, Bool-cases, Option-cases, arith, eq_refl}
use an_kla_memory.Json.{
  Json, Fields, Items, nil, cons, null, bool, num, real, not_finite, str, arr, obj,
}
use an_kla_memory.Json.{end, lookup}
use an_kla_memory.WritePolicy.Types.{Proposal, Authority, Stream, Operation, stream_of, stream_name}
use an_kla_memory.WritePolicy.Types.{
  operation_of, events, episodes, facts, add, supersede, refute, decay,
}
use an_kla_memory.WritePolicy.Types.{representation_name}
use an_kla_memory.WritePolicy.Shape.{one_of}
use an_kla_memory.WritePolicy.Proposal.{fields_of}
use an_kla_memory.WritePolicy.Evaluate.{Decision, Verdict, skip, write_full, write_summary}
use an_kla_memory.WritePolicy.Evaluate.{is_supported}
use an_kla_memory.WritePolicy.Plan.{
  part, target_field, planned_item, decision_event, planned_records,
}
use an_kla_memory.WriteBatch.Validate.{Batch}
use an_kla_memory.WriteBatch.Assemble.{
  batch_item, batch_items, batch_event, followed_by, find_event, with_payload,
}
use an_kla_memory.WriteBatch.Assemble.{is_decision_event, target_field as target_from}
use an_kla_memory.Store.Reading.{item_of}

-- What one item adds to the records of one stream.
unfoldable pub take_item : Stream → Json → Result (List Fields)
unfolding stream_of operation_of
take_item t x = do
  operation ← one_of operation_of (part x "operation") key_error
  raise_if (not (is_supported operation))
      (write_policy "invalid_write_plan" (some "records[]:operation:not_committable"))
  stream ← one_of stream_of (part x "stream") key_error
  ok (if stream_name stream == stream_name t then fields_of (part x "record") ∷ [] else [])

-- `pending[stream]` at the end of the loop over `checked_plan["records"]`
unfoldable pub pending : Stream → Items → Result (List Fields)
unfolding take_item
pending t nil = ok []
pending t (cons x xs) = take_item t x >>= λ first. pending t xs >>= λ rest. ok (first ++ rest)

abbrev pub rows_of : List (String × Fields) → List Fields
rows_of [] = []
rows_of ((id, row) ∷ rows) = row ∷ rows_of rows

take_item-item_of :
    (t s : Stream) (o : Operation) (r : Json) (row rest : Fields)
    → is_supported o ≡ true
    → take_item t (item_of s o r row rest)
      ≡ ok (if stream_name s == stream_name t then row ∷ [] else [])
unfolding take_item stream_of operation_of
take_item-item_of t facts add r row rest h = refl
take_item-item_of t facts supersede r row rest h = refl
take_item-item_of t events add r row rest h = refl
take_item-item_of t events supersede r row rest h = refl
take_item-item_of t episodes add r row rest h = refl
take_item-item_of t episodes supersede r row rest h = refl
take_item-item_of t s refute r row rest h = cc
take_item-item_of t s decay r row rest h = cc

both_first : (a b : Bool) → (a && b) ≡ true → a ≡ true
both_first a b h = ground arith

event_name : (s : Stream) → (stream_name s == "events") ≡ true → s ≡ events
event_name facts h = cc
event_name events h = refl
event_name episodes h = cc

other_name : (t : Stream) → t ≢ events → ("events" == stream_name t) ≡ false
other_name facts h = refl
other_name events h = absurd (h refl)
other_name episodes h = refl

with_payload-item_of :
    (s : Stream) (o : Operation) (r : Json) (row rest : Fields) (payload : Json) (d : Decision)
    (digests : List String) (event : Json)
    → with_payload (fields_of (item_of s o r row rest)) row payload d digests ≡ ok event
    → (row' : Fields) × (event ≡ item_of s o r row' rest)
with_payload-item_of s o r row rest (obj fs) d digests event h = (_, sym (ok_inj h))
with_payload-item_of s o r row rest null d digests event h = (end, cc)
with_payload-item_of s o r row rest (bool x) d digests event h = (end, cc)
with_payload-item_of s o r row rest (num n) d digests event h = (end, cc)
with_payload-item_of s o r row rest (real x) d digests event h = (end, cc)
with_payload-item_of s o r row rest not_finite d digests event h = (end, cc)
with_payload-item_of s o r row rest (str x) d digests event h = (end, cc)
with_payload-item_of s o r row rest (arr xs) d digests event h = (end, cc)

-- The audit event is the item that was found, with another record.
batch_event-item_of :
    (s : Stream) (o : Operation) (r : Json) (row rest : Fields) (d : Decision)
    (digests : List String) (event : Json)
    → batch_event (item_of s o r row rest) d digests ≡ ok event
    → (row' : Fields) × (event ≡ item_of s o r row' rest)
unfolding batch_event
batch_event-item_of s o r row rest d digests event h = elim (Option-cases (lookup "payload" row)) [
  | inl missing ↦ (end, cc (rw (batch_event, missing) at h))
  | inr (payload, found) ↦
      with_payload-item_of s o r row rest payload d digests event (rw (batch_event, found) at h)
]

-- What is found in a plan is an item on the stream of events that a commit takes.
find_event-item_of :
    (p : Proposal) (a : Authority) (d : Decision) (found : Json)
    → is_supported p.operation ≡ true
    → find_event (cons (planned_item p) (cons (decision_event a d) nil)) ≡ ok found
    → (o : Operation) × (r : Json) × (row : Fields) × (rest : Fields) × (is_supported o ≡ true)
      × (found ≡ item_of events o r row rest)
unfolding find_event
find_event-item_of p a d found known h = elim (Bool-cases (is_decision_event (planned_item p))) [
  | inl e ↦
      let on_events : p.stream ≡ events = event_name p.stream (both_first _ _ e) in
      (
        p.operation,
        str (representation_name p.requested),
        p.row,
        target_field p.supersedes,
        known,
        sym (ok_inj (rw e at h))
            ∙ ap
                (λ s.
                  item_of s p.operation (str (representation_name p.requested)) p.row
                    (target_field p.supersedes))
                on_events,
      )
  | inr e ↦ (add, str "summary", _, end, refl, sym (ok_inj (rw e at h)))
]

skipped : (v : Verdict) (xs : Items) → v ≡ skip → (elim v [ skip ↦ nil | _ ↦ xs ]) ≡ nil
skipped skip xs h = refl
skipped write_full xs h = cc
skipped write_summary xs h = cc

-- A plan in which an event is found is one of a decision to write.
pub find_event-written :
    (p : Proposal) (a : Authority) (d : Decision) (found : Json)
    → find_event (planned_records p a d) ≡ ok found
    → d.verdict ≢ skip
unfolding find_event
find_event-written p a d found h e = cc (
    sym
      (ap find_event (skipped d.verdict (cons (planned_item p) (cons (decision_event a d) nil)) e))
    ∙ h)

written_items : (v : Verdict) (xs : Items) → v ≢ skip → (elim v [ skip ↦ nil | _ ↦ xs ]) ≡ xs
written_items skip xs h = absurd (h refl)
written_items write_full xs h = refl
written_items write_summary xs h = refl

-- Another stream takes nothing of the audit event.
pub written_event :
    (p : Proposal) (a : Authority) (d : Decision) (found : Json)
    → is_supported p.operation ≡ true
    → d.verdict ≢ skip
    → find_event (planned_records p a d) ≡ ok found
    → (t : Stream) (d' : Decision) (digests : List String) (event : Json) → t ≢ events
    → batch_event found d' digests ≡ ok event
    → take_item t event ≡ ok []
written_event p a d found known written seen t d' digests event other made =
    let both = cons (planned_item p) (cons (decision_event a d) nil) in
    let (o, r, row, rest, committed, shape) =
      find_event-item_of p a d found known
        (ap find_event (sym (written_items d.verdict both written)) ∙ seen) in
    let (row', built) =
      batch_event-item_of events o r row rest d' digests event
        (ap (λ v. batch_event v d' digests) (sym shape) ∙ made) in
    ap (take_item t) built
    ∙ (take_item-item_of t events o r row' rest committed ∙ rw (other_name t other) refl)

-- The commit takes the rows of the batch, in their order, and nothing of the audit event.
pub pending-batch_items :
    (b : Batch) (rows : List (String × Fields)) (items : List Json) (event : Json)
    → is_supported b.operation ≡ true
    → take_item b.stream event ≡ ok []
    → batch_items b rows ≡ ok items
    → pending b.stream (followed_by items event) ≡ ok (rows_of rows)
unfolding pending batch_items
pending-batch_items b [] items event known none_of h =
    ap (λ l. pending b.stream (followed_by l event)) (sym (ok_inj h)) ∙ rw none_of refl
pending-batch_items b ((id, row) ∷ rows) items event known none_of h =
    let (x, xs, made, later, built) =
      cons_results-eq-ok
        (target_from b.operation b.targets id >>= λ target. ok (batch_item b row target))
        (batch_items b rows) h in
    let (target, item, _) = >>=-eq-ok (target_from b.operation b.targets id) _ made in
    let first : take_item b.stream x ≡ ok (row ∷ []) =
      ap (take_item b.stream) (sym (ok_inj item))
      ∙ (take_item-item_of b.stream b.stream b.operation (str (representation_name b.requested)) row
            target known
          ∙ rw (eq_refl (stream_name b.stream)) refl) in
    ap (λ l. pending b.stream (followed_by l event)) built
    ∙ rw (first, pending-batch_items b rows xs event known none_of later) refl
