-- ===== src/Workflow/Sends.antt =====
-- What the results of a superstep ask for: `_extract_push_sends` and `_extract_command_gotos`, and
-- the inputs that `_execute_push_tasks` makes of them.
pub mod Laws
use langgraph_temporal.Prelude.{String, Bool, true, false, Option, none, some, List, [], ◌∷◌, ◌++◌}
use langgraph_temporal.Prelude.{if◌then◌else◌, or_default}
use langgraph_temporal.Prelude.Dict
use langgraph_temporal.Prelude.Dict.{Dict}
use langgraph_temporal.Prelude.Result.{Result, ok, err, key_error, type_error, ◌>>=◌}
use langgraph_temporal.Value.{Value, null, str, list, dict, items, entries, of_dict, truthy}
use langgraph_temporal.Config.{NodeActivityInput, NodeActivityOutput, name}

-- A `Send` as the dict that crosses the activity boundary.
abbrev pub SendDict : Type 0
SendDict = Dict Value

unfoldable pub extract_push_sends : List NodeActivityOutput → List SendDict
extract_push_sends [] = []
extract_push_sends (r ∷ rs) = or_default r.push_sends [] ++ extract_push_sends rs

-- A target of `goto`: a dict with a node is taken as it is, a text names a node, and anything
-- else is passed over.
unfoldable pub goto_target : Value → List SendDict
goto_target (dict fs) = if Dict.has (entries fs) "node" then entries fs ∷ [] else []
goto_target (str s) = (("node", str s) ∷ ("arg", null) ∷ []) ∷ []
goto_target _ = []

unfoldable pub goto_targets : List Value → List SendDict
unfolding goto_target
goto_targets [] = []
goto_targets (v ∷ vs) = goto_target v ++ goto_targets vs

-- `goto if isinstance(goto, list) else [goto]`
unfoldable pub goto_list : Value → List Value
goto_list (list vs) = items vs
goto_list v = v ∷ []

-- The targets of one result's command.
unfoldable pub command_gotos : Option (Dict Value) → List SendDict
unfolding goto_targets goto_list
command_gotos none = []
command_gotos (some command) =
    let goto = or_default (Dict.get command "goto") null in
    if truthy goto then goto_targets (goto_list goto) else []

unfoldable pub extract_command_gotos : List NodeActivityOutput → List SendDict
unfolding command_gotos
extract_command_gotos [] = []
extract_command_gotos (r ∷ rs) = command_gotos r.command ++ extract_command_gotos rs

-- `send["node"]`, the name of a node, which is a text.
unfoldable pub send_node : SendDict → Result String
send_node send = elim (Dict.get send "node") [
  | none ↦ err (key_error "node")
  | some (str s) ↦ ok s
  | some _ ↦ err (type_error "node name")
]

-- `send.get("arg")`, where None stands for no input.
unfoldable pub send_arg : SendDict → Option Value
send_arg send = elim (Dict.get send "arg") [ none ↦ none | some null ↦ none | some v ↦ some v ]

-- The input of a PUSH task, and of all of them.
unfoldable pub push_input : Dict Value → String → SendDict → Result NodeActivityInput
unfolding send_node send_arg
push_input values ref send = send_node send >>= λ node. ok (record {
  node_name = node;
  input_state = of_dict values;
  graph_definition_ref = ref;
  resume_values = none;
  task_path = name node ∷ name "push" ∷ [];
  send_input = send_arg send;
  triggers = [];
})

unfoldable pub push_inputs : Dict Value → String → List SendDict → Result (List NodeActivityInput)
unfolding push_input
push_inputs values ref [] = ok []
push_inputs values ref (send ∷ sends) = push_input values ref send >>= λ input.
    push_inputs values ref sends >>= λ inputs. ok (input ∷ inputs)
