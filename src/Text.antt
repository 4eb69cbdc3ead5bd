-- ===== src/Text.antt =====
-- Python's text of values: `str(n)` of a number, formatting into an f-string, truth of texts.
use Prim.Native.String.{slice}
use langgraph_temporal.Prelude.{
  ℕ, zero, suc, ◌/◌, ◌%◌, String, ◌<>◌, Bool, false, not, Option, none, some, [], ◌∷◌,
  if◌then◌else◌, ltb, ◌==◌, ◌≡◌, refl,
}
use langgraph_temporal.Prelude.Lists.{get_elem?}
use langgraph_temporal.Prelude.Result.{Exn}
use langgraph_temporal.Value.{Value, str}

-- What a workflow reads of its surroundings: `workflow.info()`, the stream of `uuid4().hex`, and
-- `str()` of values that are not texts and of exceptions.
pub record Host : Type 0 where
  pub workflow_id : String
  pub task_queue : String
  pub uuid_hex : ℕ → String
  pub str_value : Value → String
  pub str_exn : Exn → String

-- A text that may be None is true if it is there and not empty.
abbrev pub truthy_text : Option String → Bool
truthy_text none = false
truthy_text (some s) = not (s == "")

-- `text[:n]` of an ASCII text.
unfoldable pub first_chars : ℕ → String → String
first_chars n s = slice s 0 n

digit_text : ℕ → String
digit_text d =
    elim (get_elem? {A = String} ("0" ∷ "1" ∷ "2" ∷ "3" ∷ "4" ∷ "5" ∷ "6" ∷ "7" ∷ "8" ∷ "9" ∷ [])
      d) [ none ↦ "" | some t ↦ t ]

-- A number below 10 ^ fuel has at most so many digits; `n` itself is fuel enough.
decimal : ℕ → ℕ → String
unfolding digit_text
decimal zero n = ""
decimal (suc fuel) n =
    let front = decimal fuel (n / 10) in
    if ltb n 10 then digit_text n else front <> digit_text (n % 10)

-- `str(n)`
unfoldable pub show : ℕ → String
unfolding decimal
show n = decimal (suc n) n

-- `f"{v}"`
unfoldable pub format : Host → Value → String
format H (str s) = s
format H v = H.str_value v

show_number : show 1203 ≡ "1203"
unfolding show
show_number = refl
