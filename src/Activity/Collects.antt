-- ===== src/Activity/Collects.antt =====
-- What the handlers of langgraph/temporal/activities.py collect, and what a node reads back.
use langgraph_temporal.Prelude.{
  String, ◌==◌, ◌≡◌, refl, arith, some, List, [], ◌∷◌, ◌++◌, append_assoc, append-nil,
  if◌then◌else◌, or_default,
}
use langgraph_temporal.Prelude.Dict
use langgraph_temporal.Prelude.Dict.{Dict}
use langgraph_temporal.Prelude.Result.{ok}
use langgraph_temporal.Value.{Value, Fields, dict, null, entries}
use langgraph_temporal.Config.{Write}
use langgraph_temporal.Activity.{
  Sent, packet, plain, Collected, send_handler, note_task, sent_value, packet_dict, tasks_channel,
  read_handler, as_dict, read_select, one_channel,
}

-- The `Send`s on the channel TASKS, and the writes to the other channels.
abbrev pub packets_of : List (String × Sent) → List (Dict Value)
packets_of [] = []
packets_of ((channel, packet node arg) ∷ ws) =
    let rest = packets_of ws in
    if channel == tasks_channel then packet_dict node arg ∷ rest else rest
packets_of ((channel, plain v) ∷ ws) = packets_of ws

abbrev pub writes_of : List (String × Sent) → List Write
writes_of [] = []
writes_of ((channel, s) ∷ ws) =
    let rest = writes_of ws in
    if channel == tasks_channel then rest else (channel, sent_value s) ∷ rest

-- Each call of the send handler appends the `Send`s on TASKS to the PUSH sends and the writes to the
-- other channels to the writes, both in order; a value on TASKS that is no `Send` is dropped.
pub send_handler-splits :
    (ws : List (String × Sent)) (c : Collected)
    → send_handler ws c ≡ record c {
      push_sends = c.push_sends ++ packets_of ws;
      all_writes = c.all_writes ++ writes_of ws;
    }
unfolding send_handler note_task sent_value
send_handler-splits [] c = simp append-nil
send_handler-splits ((channel, packet node arg) ∷ ws) c =
    let pushed = record c { push_sends = c.push_sends ++ (packet_dict node arg ∷ []) } in
    let written = record c {
      all_writes = c.all_writes ++ ((channel, sent_value (packet node arg)) ∷ []);
    } in
    ground (
      arith,
      send_handler-splits ws pushed,
      send_handler-splits ws written,
      append_assoc c.push_sends (packet_dict node arg ∷ []) (packets_of ws),
      append_assoc c.all_writes ((channel, sent_value (packet node arg)) ∷ []) (writes_of ws),
    )
send_handler-splits ((channel, plain v) ∷ ws) c =
    let written = record c { all_writes = c.all_writes ++ ((channel, v) ∷ []) } in
    ground (
      arith,
      send_handler-splits ws c,
      send_handler-splits ws written,
      append_assoc c.all_writes ((channel, v) ∷ []) (writes_of ws),
    )

update-append :
    (d : Dict Value) (ps qs : List Write)
    → Dict.update d (ps ++ qs) ≡ Dict.update (Dict.update d ps) qs
unfolding Dict.update
update-append d [] qs = refl
update-append d ((k, v) ∷ ps) qs = update-append (Dict.put d k v) ps qs

update-last :
    (d : Dict Value) (ps : List Write) (k j : String) (v : Value)
    → Dict.get (Dict.update d (ps ++ ((k, v) ∷ []))) j
      ≡ (if k == j then some v else Dict.get (Dict.update d ps) j)
unfolding Dict.update
update-last d ps k j v =
    ground (arith, update-append d ps ((k, v) ∷ []), Dict.get-put (Dict.update d ps) k j v)

read_handler-one :
    (fs : Fields) (j : String) (c : Collected)
    → read_handler (dict fs) (one_channel j) c
      ≡ ok (or_default (Dict.get (Dict.update (entries fs) c.all_writes) j) null)
unfolding read_handler as_dict read_select
read_handler-one fs j c = refl

-- A node that has written a value to a channel reads this value from it, and reads every other
-- channel as before the write.
pub read_handler-written :
    (fs : Fields) (c : Collected) (k j : String) (v : Value)
    → read_handler
        (dict fs)
        (one_channel j)
        (record c { all_writes = c.all_writes ++ ((k, v) ∷ []) })
      ≡ (if k == j then ok v else read_handler (dict fs) (one_channel j) c)
read_handler-written fs c k j v = ground (
  arith,
  read_handler-one fs j c,
  read_handler-one fs j (record c { all_writes = c.all_writes ++ ((k, v) ∷ []) }),
  update-last (entries fs) c.all_writes k j v,
)
