-- ===== src/Workflow/Sends/Laws.antt =====
-- The sends of a superstep, and the inputs of the PUSH tasks made from them.
use langgraph_temporal.Prelude.{
  String, none, or_default, Option-cases, inl, inr, ◌≡◌, refl, some, List, [], ◌∷◌, ◌++◌, map,
  arith, append_assoc, ap,
}
use langgraph_temporal.Prelude.Dict
use langgraph_temporal.Prelude.Dict.{Dict}
use langgraph_temporal.Prelude.Result.{ok}
use langgraph_temporal.Value.{
  Value, null, bool, num, list, dict, object, of_dict, str, Values, nil, cons, items,
}
use langgraph_temporal.Config.{NodeActivityInput, NodeActivityOutput}
use langgraph_temporal.Workflow.Sends.{
  extract_push_sends, extract_command_gotos, goto_targets, push_inputs, push_input, send_node,
  SendDict, send_arg,
}

pub extract_push_sends-append :
    (xs ys : List NodeActivityOutput)
    → extract_push_sends (xs ++ ys) ≡ extract_push_sends xs ++ extract_push_sends ys
unfolding extract_push_sends
extract_push_sends-append [] ys = refl
extract_push_sends-append (x ∷ xs) ys = simp (extract_push_sends-append xs ys, append_assoc)

pub extract_command_gotos-append :
    (xs ys : List NodeActivityOutput)
    → extract_command_gotos (xs ++ ys) ≡ extract_command_gotos xs ++ extract_command_gotos ys
unfolding extract_command_gotos
extract_command_gotos-append [] ys = refl
extract_command_gotos-append (x ∷ xs) ys = simp (extract_command_gotos-append xs ys, append_assoc)

-- Node names as values.
abbrev pub texts : List String → Values
texts [] = nil
texts (s ∷ ss) = cons (str s) (texts ss)

-- The send that a plain node name stands for.
abbrev pub plain_send : String → SendDict
plain_send s = ("node", str s) ∷ ("arg", null) ∷ []

goto_targets-texts :
    (names : List String) → goto_targets (items (texts names)) ≡ map plain_send names
unfolding goto_targets
goto_targets-texts [] = refl
goto_targets-texts (s ∷ ss) = ap (λ (r : List SendDict). plain_send s ∷ r) (goto_targets-texts ss)

-- Inputs that have the node and the argument of the send at the same place (no argument is as good as
-- None), the state's values and the reference of the graph, and no resume values.
abbrev pub Matches : Dict Value → String → List SendDict → List NodeActivityInput → Type 0
Matches values ref [] [] = Unit
Matches values ref [] (i ∷ is) = ⊥
Matches values ref (s ∷ ss) [] = ⊥
Matches values ref (s ∷ ss) (i ∷ is) =
    (Dict.get s "node" ≡ some (str i.node_name))
    × (or_default i.send_input null ≡ or_default (Dict.get s "arg") null)
    × (i.input_state ≡ of_dict values)
    × (i.graph_definition_ref ≡ ref)
    × (i.resume_values ≡ none)
    × Matches values ref ss is

send_arg-some :
    (s : SendDict) (v : Value)
    → Dict.get s "arg" ≡ some v
    → or_default (send_arg s) null ≡ or_default (Dict.get s "arg") null
unfolding send_arg
send_arg-some s null e = ground (arith, e)
send_arg-some s (bool b) e = ground (arith, e)
send_arg-some s (num n) e = ground (arith, e)
send_arg-some s (str t) e = ground (arith, e)
send_arg-some s (list vs) e = ground (arith, e)
send_arg-some s (dict fs) e = ground (arith, e)
send_arg-some s (object n) e = ground (arith, e)

send_arg-or_default :
    (s : SendDict) → or_default (send_arg s) null ≡ or_default (Dict.get s "arg") null
unfolding send_arg
send_arg-or_default s = elim (Option-cases (Dict.get s "arg")) [
  | inl e ↦ ground (arith, e)
  | inr (v, e) ↦ send_arg-some s v e
]

-- If the inputs of the PUSH tasks are made, there is one for each send, in the order of the sends, and
-- it has the node and the argument of its send (or no argument, if this is None or missing), the
-- values of the state, the reference of the graph, and no resume values.
pub push_inputs-Matches :
    (values : Dict Value) (ref : String) (sends : List SendDict) (inputs : List NodeActivityInput)
    → push_inputs values ref sends ≡ ok inputs
    → Matches values ref sends inputs
unfolding push_inputs push_input send_node
push_inputs-Matches values ref [] [] h = tt
push_inputs-Matches values ref [] (i ∷ is) h = cc
push_inputs-Matches values ref (s ∷ ss) [] h = ground arith
push_inputs-Matches values ref (s ∷ ss) (i ∷ is) h =
    ground (arith, send_arg-or_default s, push_inputs-Matches values ref ss is)
