-- ===== src/Workflow/Children/Laws.antt =====
-- The answers to sub-agent requests, from `_process_child_workflow_requests`.
use Prim.Native.String.append
use Prim.Native.Char.{Char}
use mathlib.Core.Path.{subst}
use langgraph_temporal.Prelude.{
  ◌++◌, true, refl, ap, sym, ◌∙◌, String, ◌<>◌, ◌≡◌, ◌≢◌, ◌⊎◌, false, List, [], ◌∷◌, arith,
  or_default, inl, inr, Bool-cases,
}
use langgraph_temporal.Prelude.Dict
use langgraph_temporal.Prelude.Lists.{last?}
use langgraph_temporal.Prelude.Result.{
  Exn, Result, ok, err, Result-cases, ◌>>=◌, >>=-eq-ok, ok-injective,
}
use langgraph_temporal.Value.{
  Value, null, bool, num, str, list, dict, object, nil, cons, field, end, items, truthy,
}
use langgraph_temporal.Config.{WorkflowOutput, Write}
use langgraph_temporal.Text.{Host, format}
use langgraph_temporal.Coroutine.{Slot, returned, failed, parked}
use langgraph_temporal.Workflow.Machine.{failure, collect_settled}
use langgraph_temporal.Workflow.Children.{
  ChildRequest, child_content, child_writes, tool_write, last_message, last_item, last_char,
}

-- The last element of messages: of a list its last value, of a text its last character.
abbrev pub IsLast : Value → Value → Type 0
IsLast (list vs) v = (before : List Value) × (items vs ≡ before ++ (v ∷ []))
IsLast (str s) v =
    (before : String) × (c : Char) × (s ≡ before <> String.◌∷◌ c String.[])
    × (v ≡ str (String.◌∷◌ c String.[]))
IsLast _ v = ⊥

-- The text that stands for a child's end: its failure, the last of its messages, or nothing.
abbrev pub Tells : Host → ChildRequest → Result WorkflowOutput → String → Type 0
Tells H req (err e) content = content ≡ (
    "Sub-agent '"
    <> format H (or_default (Dict.get req "subagent_type") (str "unknown"))
    <> "' failed: "
    <> H.str_exn e)
Tells H req (ok o) content =
    let messages = or_default (Dict.get o.channel_values "messages") (list nil) in
    ((v : Value) × IsLast messages v × (content ≡ format H v))
    ⊎ ((truthy messages ≡ false) × (content ≡ ""))

-- A write to the messages of a tool message with the request's call id, or an empty one.
abbrev pub ToolMessage : ChildRequest → String → Write → Type 0
ToolMessage req content (channel, v) =
    (channel ≡ "messages")
    × (v
        ≡ dict (
            field "type" (str "tool") (
              field "content" (str content)
                (field "tool_call_id" (or_default (Dict.get req "tool_call_id") (str "")) end))))

-- Writes that answer requests one by one.
abbrev pub Answers : Host → List ChildRequest → List (Result WorkflowOutput) → List Write → Type 0
Answers H [] [] [] = Unit
Answers H (req ∷ reqs) (o ∷ os) (w ∷ ws) =
    ((content : String) × ToolMessage req content w × Tells H req o content) × Answers H reqs os ws
Answers H [] [] (w ∷ ws) = ⊥
Answers H [] (o ∷ os) ws = ⊥
Answers H (req ∷ reqs) [] ws = ⊥
Answers H (req ∷ reqs) (o ∷ os) [] = ⊥

last_item-IsLast :
    (v : Value) (vs : List Value)
    → (before : List Value) × (v ∷ vs ≡ before ++ (last_item (last? (v ∷ vs)) ∷ []))
unfolding last_item
last_item-IsLast v [] = ([], refl)
last_item-IsLast v (u ∷ vs) =
    let (before, e) = last_item-IsLast u vs in (v ∷ before, ap (λ (r : List Value). v ∷ r) e)

last_char-IsLast :
    (c : Char) (s : String)
    → (before : String) × (d : Char) × (String.◌∷◌ c s ≡ before <> String.◌∷◌ d String.[])
      × (last_char (String.◌∷◌ c s) ≡ String.◌∷◌ d String.[])
unfolding last_char
last_char-IsLast c String.[] = (String.[], c, sym (append.nil (String.◌∷◌ c String.[])), refl)
last_char-IsLast c (String.◌∷◌ d s) =
    let (before, e, same, last) = last_char-IsLast d s in
    (
      String.◌∷◌ c before,
      e,
      ap (λ (r : String). String.◌∷◌ c r) same
          ∙ sym (append.cons c before (String.◌∷◌ e String.[])),
      last,
    )

last_message-IsLast :
    (messages v : Value) → truthy messages ≡ true → last_message messages ≡ ok v → IsLast messages v
unfolding last_message truthy
last_message-IsLast (list nil) v full h = ground (arith, full)
last_message-IsLast (list (cons u us)) v full h =
    subst (λ v. (before : List Value) × (u ∷ items us ≡ before ++ (v ∷ []))) (ok-injective h)
      (last_item-IsLast u (items us))
last_message-IsLast (str String.[]) v full h = ground (arith, full)
last_message-IsLast (str (String.◌∷◌ c s)) v full h =
    let (before, d, same, last) = last_char-IsLast c s in
    (before, d, same, sym (ok-injective h) ∙ ap str last)
last_message-IsLast null v full h = ground (arith, h)
last_message-IsLast (bool b) v full h = ground (arith, h)
last_message-IsLast (num n) v full h = ground (arith, h)
last_message-IsLast (dict fs) v full h = ground (arith, h)
last_message-IsLast (object n) v full h = ground (arith, h)

child_content-Tells :
    (H : Host) (req : ChildRequest) (o : Result WorkflowOutput) (content : String)
    → child_content H req o ≡ ok content
    → Tells H req o content
unfolding child_content
child_content-Tells H req (err e) content h = ground arith
child_content-Tells H req (ok o) content h =
    let messages = or_default (Dict.get o.channel_values "messages") (list nil) in
    elim (Bool-cases (truthy messages)) [
      | inl full ↦ elim (Result-cases (last_message messages)) [
        | inl (v, e) ↦ inl (v, last_message-IsLast messages v full e, ground (arith, full, e))
        | inr (x, e) ↦ ground (arith, full, e)
      ]
      | inr empty ↦ inr (empty, ground (arith, empty))
    ]

-- If the writes for the ended children of a node are made, there are as many ends as requests and as many
-- writes as these, in the order of the requests; each is a tool message for the messages that carries
-- the request's call id, and its text is the child's last message, or empty if there are no messages, or
-- names the failure of the child.
pub child_writes-Answers :
    (H : Host) (reqs : List ChildRequest) (os : List (Result WorkflowOutput)) (ws : List Write)
    → child_writes H reqs os ≡ ok ws
    → Answers H reqs os ws
unfolding child_writes tool_write
child_writes-Answers H [] [] [] h = tt
child_writes-Answers H [] [] (w ∷ ws) h = cc
child_writes-Answers H [] (o ∷ os) ws h = absurd (cc)
child_writes-Answers H (req ∷ reqs) [] ws h = absurd (cc)
child_writes-Answers H (req ∷ reqs) (o ∷ os) [] h =
    let rest : String → Result (List Write) =
      λ content. child_writes H reqs os >>= λ ws. ok (tool_write H req content ∷ ws) in
    let (content, e1, e2) = >>=-eq-ok (child_content H req o) rest h in
    let (ws, e3, e4) =
      >>=-eq-ok (child_writes H reqs os) (λ (ws : List Write). ok (tool_write H req content ∷ ws))
        e2 in
    cc
child_writes-Answers H (req ∷ reqs) (o ∷ os) ((channel, v) ∷ ws) h =
    let rest : String → Result (List Write) =
      λ content. child_writes H reqs os >>= λ ws. ok (tool_write H req content ∷ ws) in
    let (content, e1, e2) = >>=-eq-ok (child_content H req o) rest h in
    let (ws', e3, e4) =
      >>=-eq-ok (child_writes H reqs os) (λ (ws : List Write). ok (tool_write H req content ∷ ws))
        e2 in
    (
      (content, (cc, cc), child_content-Tells H req o content e1),
      child_writes-Answers H reqs os ws cc,
    )

-- A child workflow that fails does not end the wait for the group.
collect_settled-not-failure :
    {S A : Type 0} (slots : List (Slot S A)) (e : Exn) → collect_settled slots ≢ failure e
unfolding collect_settled
collect_settled-not-failure [] e h = cc
collect_settled-not-failure (returned a ∷ slots) e h =
    ground (arith, collect_settled-not-failure slots e)
collect_settled-not-failure (failed x ∷ slots) e h =
    ground (arith, collect_settled-not-failure slots e)
collect_settled-not-failure (parked q k ∷ slots) e h = cc
