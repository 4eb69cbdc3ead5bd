-- ===== src/Activity.antt =====
-- langgraph/temporal/activities.py: what a node does while it runs in an activity. A node's callable
-- and its writers are not the program's: what one of them does is a script, the calls that it makes of
-- the handlers in its config, one after the other, and how it ends.
pub mod Node
pub mod Edges
pub mod Collects
pub mod Laws
use Prim.Native.String
use langgraph_temporal.Prelude.{
  String, ◌==◌, Option, none, some, List, [], ◌∷◌, ◌++◌, if◌then◌else◌, or_default,
}
use langgraph_temporal.Prelude.Dict
use langgraph_temporal.Prelude.Dict.{Dict}
use langgraph_temporal.Prelude.Result.{Exn, Result, ok, err, type_error, ◌>>=◌}
use langgraph_temporal.Value.{Value, null, str, list, dict, nil, cons, items, of_dict, entries}
use langgraph_temporal.Config.{Write}

-- langgraph's constant TASKS.
abbrev pub tasks_channel : String
tasks_channel = "__pregel_tasks"

-- What is written to a channel: a `Send` of an argument to a node, or a value.
pub data Sent : Type 0 where
  packet : String → Value → Sent
  plain : Value → Sent

-- The argument of a read: one channel, or several.
pub data Select : Type 0 where
  one_channel : String → Select
  channels : List String → Select

-- `Interrupt`: the attributes `value` and `id`.
pub record Interrupt : Type 0 where
  pub value : Value
  pub id : String

-- A script. `interrupts`: it raises `GraphInterrupt`; `throws`: another exception.
pub data Script (A : Type 0) : Type 0 where
  finishes : A → Script A
  interrupts : List Interrupt → Script A
  throws : Exn → Script A
  send : List (String × Sent) → Script A → Script A
  stream : Value → Script A → Script A
  read : Select → (Result Value → Script A) → Script A
  request_child : Dict Value → Script A → Script A

-- What the handlers collect: `push_sends`, `all_writes`, `custom_data`, and the child workflow requests.
pub record Collected : Type 0 where
  pub push_sends : List (Dict Value)
  pub all_writes : List Write
  pub custom_data : List Value
  pub child_requests : List (Dict Value)

abbrev pub nothing_yet : Collected
nothing_yet = record { push_sends = []; all_writes = []; custom_data = []; child_requests = [] }

-- {"node": val.node, "arg": val.arg}
unfoldable pub packet_dict : String → Value → Dict Value
packet_dict node arg = ("node", str node) ∷ ("arg", arg) ∷ []

-- A `Send` written to another channel is a value like any other, here without its content.
unfoldable pub sent_value : Sent → Value
unfolding packet_dict
sent_value (packet node arg) = of_dict (packet_dict node arg)
sent_value (plain v) = v

-- A write to TASKS counts if it is a `Send`.
unfoldable pub note_task : Sent → Collected → Collected
unfolding packet_dict
note_task (packet node arg) c = record c {
  push_sends = c.push_sends ++ (packet_dict node arg ∷ []);
}
note_task (plain v) c = c

unfoldable pub send_handler : List (String × Sent) → Collected → Collected
unfolding note_task sent_value
send_handler [] c = c
send_handler ((channel, s) ∷ ws) c =
    let task = note_task s c in
    let written = record c { all_writes = c.all_writes ++ ((channel, sent_value s) ∷ []) } in
    send_handler ws (if channel == tasks_channel then task else written)

unfoldable pub stream_handler : Value → Collected → Collected
stream_handler v c = record c { custom_data = c.custom_data ++ (v ∷ []) }

-- The values of the channels that are read; a channel that is not there reads as None.
unfoldable pub select_channels : Dict Value → List String → Dict Value
select_channels effective [] = []
select_channels effective (k ∷ ks) =
    (k, or_default (Dict.get effective k) null) ∷ select_channels effective ks

unfoldable pub read_select : Dict Value → Select → Value
unfolding select_channels
read_select effective (one_channel k) = or_default (Dict.get effective k) null
read_select effective (channels ks) = of_dict (Dict.update [] (select_channels effective ks))

-- An element of a sequence that `dict` takes: a pair of a key and a value. A key that is no text, which
-- the dicts of the model do not have, is an error here.
unfoldable pub as_pair : Value → Result (String × Value)
as_pair (list (cons (str k) (cons v nil))) = ok (k, v)
as_pair (str (String.◌∷◌ k (String.◌∷◌ v String.[]))) =
    ok (String.◌∷◌ k String.[], str (String.◌∷◌ v String.[]))
as_pair _ = err (type_error "cannot convert dictionary update sequence element to a sequence")

unfoldable pub as_pairs : List Value → Result (Dict Value)
unfolding as_pair
as_pairs [] = ok []
as_pairs (v ∷ vs) = as_pair v >>= λ p. as_pairs vs >>= λ ps. ok (p ∷ ps)

-- `dict(v)`
unfoldable pub as_dict : Value → Result (Dict Value)
unfolding as_pairs
as_dict (dict fs) = ok (entries fs)
as_dict (list vs) = as_pairs (items vs) >>= λ ps. ok (Dict.update [] ps)
as_dict (str String.[]) = ok []
as_dict _ = err (type_error "object is not iterable")

-- The writes so far, over the input state.
unfoldable pub read_handler : Value → Select → Collected → Result Value
unfolding as_dict read_select
read_handler state s c =
    as_dict state >>= λ effective. ok (read_select (Dict.update effective c.all_writes) s)

-- How a script ends.
pub data End (A : Type 0) : Type 0 where
  returned : A → End A
  interrupted : List Interrupt → End A
  threw : Exn → End A

-- Runs a script for a node with the given input state.
unfoldable pub play : {A : Type 0} → Value → Script A → Collected → End A × Collected
unfolding send_handler stream_handler read_handler
play state (finishes a) c = (returned a, c)
play state (interrupts is) c = (interrupted is, c)
play state (throws e) c = (threw e, c)
play state (send ws s) c = play state s (send_handler ws c)
play state (stream v s) c = play state s (stream_handler v c)
play state (read q k) c = play state (k (read_handler state q c)) c
play state (request_child r s) c =
    play state s (record c { child_requests = c.child_requests ++ (r ∷ []) })
