-- ===== src/Tools.antt =====
-- langgraph/temporal/tools.py: `activity_as_tool`. What an activity does with its arguments is a
-- function; its name and its doc are attributes that may be missing.
use langgraph_temporal.Prelude.{String, Option, or_default, if◌then◌else◌}
use langgraph_temporal.Prelude.Result.{Result}
use langgraph_temporal.Text.{truthy_text}

module _ (Args Value : Type 0) where
  pub record ActivityFn : Type 0 where
    pub name : Option String
    pub doc : Option String
    pub call : Args → Result Value

  pub record Tool : Type 0 where
    pub name : String
    pub doc : String
    pub qualname : String
    pub activity_fn : ActivityFn
    pub task_queue : Option String
    pub call : Args → Result Value

-- `a or rest`, for a text that may be missing.
abbrev pub or_text : Option String → String → String
or_text a rest = if truthy_text a then or_default a rest else rest

unfoldable pub activity_as_tool :
    {Args Value : Type 0}
    → ActivityFn Args Value
    → Option String
    → Option String
    → Option String
    → Tool Args Value
activity_as_tool fn name description task_queue =
    let tool_name = or_text name (or_text fn.name "activity_tool") in
    record {
      name = tool_name;
      doc = or_text description (or_text fn.doc "");
      qualname = tool_name;
      activity_fn = fn;
      task_queue = task_queue;
      call = λ args. fn.call args;
    }
