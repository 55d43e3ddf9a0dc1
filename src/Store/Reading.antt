-- ===== src/Store/Reading.antt =====
-- What a commit reads of the items of a plan (an_kla/supersede.py and an_kla/write_commit.py), and the
-- items of the plan that `build_write_plan` makes of one proposal.
use an_kla_memory.Base.{String, ◌≡◌, refl, ap, ◌∙◌, Option, none, some}
use an_kla_memory.Base.{List, [], key_error, Result, ok, err, ◌>>=◌}
use an_kla_memory.Base.{arith}
use an_kla_memory.Base.{cons_results}
use an_kla_memory.Json.{Json, Fields, Items, nil, cons, str, arr, obj}
use an_kla_memory.Json.{field, as_str, get}
use an_kla_memory.WritePolicy.Types.{Proposal, Stream, Operation, stream_of, stream_name}
use an_kla_memory.WritePolicy.Types.{
  operation_of, operation_name, representation_name, events, episodes, facts, add,
}
use an_kla_memory.WritePolicy.Types.{supersede, refute, decay}
use an_kla_memory.WritePolicy.Shape.{one_of}
use an_kla_memory.WritePolicy.Evaluate.{}
use an_kla_memory.WritePolicy.Plan.{part, target_field, planned_item}
use an_kla_memory.Store.Rows.{Rows}
use an_kla_memory.Store.Overlay.{Supersession}
use an_kla_memory.Store.Guard.{resolve_targets, target_of}

-- `item["record"]["id"]` of a validated record
abbrev text_of : Json → Result String
text_of (str s) = ok s
text_of _ = err key_error

-- Its stream, operation, record id, and target, which only a `supersede` has.
unfoldable pub read_item : Json → Result (Stream × Operation × String × String)
unfolding stream_of operation_of
read_item x = do
  stream ← one_of stream_of (part x "stream") key_error
  operation ← one_of operation_of (part x "operation") key_error
  row_id ← text_of (part (part x "record") "id")
  ok (stream, operation, row_id, target_of (as_str (part x "supersedes")))

unfoldable pub read_items : Items → Result (List (Stream × Operation × String × String))
unfolding read_item
read_items nil = ok []
read_items (cons x xs) = cons_results (read_item x) (read_items xs)

-- `checked_plan["records"]`
abbrev pub records_of : Json → Items
records_of plan = elim (part plan "records") [ arr xs ↦ xs | _ ↦ nil ]

-- `resolve_supersede_targets`, from the plan on.
unfoldable pub resolve_plan : (Json → String) → Rows → Json → Result (List Supersession)
unfolding read_items resolve_targets
resolve_plan show rows plan = read_items (records_of plan) >>= resolve_targets show rows

pub as_str-eq : (v : Json) {s : String} → as_str v ≡ some s → v ≡ str s
as_str-eq v h = ground arith

pub target_field-get :
    (t : Option String) → target_of (as_str (get (target_field t) "supersedes")) ≡ target_of t
target_field-get none = refl
target_field-get (some t) = refl

-- An item is read as the stream, the operation and the record that it was made of.
abbrev pub item_of : Stream → Operation → Json → Fields → Fields → Json
item_of s o r row rest = obj (
    field "stream" (str (stream_name s)) (
      field "operation" (str (operation_name o))
        (field "representation" r (field "record" (obj row) rest))))

pub read_item-item_of :
    (s : Stream) (o : Operation) (r : Json) (row rest : Fields) (id : String)
    → get row "id" ≡ str id
    → read_item (item_of s o r row rest) ≡ ok (s, o, id, target_of (as_str (get rest "supersedes")))
unfolding read_item stream_of operation_of
read_item-item_of facts add r row rest id h = rw h refl
read_item-item_of facts supersede r row rest id h = rw h refl
read_item-item_of facts refute r row rest id h = rw h refl
read_item-item_of facts decay r row rest id h = rw h refl
read_item-item_of events add r row rest id h = rw h refl
read_item-item_of events supersede r row rest id h = rw h refl
read_item-item_of events refute r row rest id h = rw h refl
read_item-item_of events decay r row rest id h = rw h refl
read_item-item_of episodes add r row rest id h = rw h refl
read_item-item_of episodes supersede r row rest id h = rw h refl
read_item-item_of episodes refute r row rest id h = rw h refl
read_item-item_of episodes decay r row rest id h = rw h refl

-- The item of a record is read as what the proposal says of it.
pub read_item-planned_item :
    (p : Proposal)
    → get p.row "id" ≡ str p.row_id
    → read_item (planned_item p) ≡ ok (p.stream, p.operation, p.row_id, target_of p.supersedes)
read_item-planned_item p named =
    read_item-item_of p.stream p.operation (str (representation_name p.requested)) p.row
      (target_field p.supersedes) p.row_id named
    ∙ ap (λ t. ok (p.stream, p.operation, p.row_id, t)) (target_field-get p.supersedes)
