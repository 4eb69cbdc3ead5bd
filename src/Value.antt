-- ===== src/Value.antt =====
-- The values of type `Any` that cross the program's boundaries: channel values, task arguments,
-- stream data. `object n` is any other Python object, told apart by its identity `n`.
use langgraph_temporal.Prelude.{ℕ, String, Bool, true, false, not, List, [], ◌∷◌}
use langgraph_temporal.Prelude.{◌≡◌, refl, ap, eqb, ◌==◌}
use langgraph_temporal.Prelude.Dict.{Dict}

mutual
  pub data Value : Type 0 where
    null : Value
    bool : Bool → Value
    num : ℕ → Value
    str : String → Value
    list : Values → Value
    dict : Fields → Value
    object : ℕ → Value

  pub data Values : Type 0 where
    nil : Values
    cons : Value → Values → Values

  pub data Fields : Type 0 where
    end : Fields
    field : String → Value → Fields → Fields

-- The elements of a list value, and the entries of a dict value.
abbrev pub items : Values → List Value
items nil = []
items (cons v vs) = v ∷ items vs

abbrev pub entries : Fields → Dict Value
entries end = []
entries (field k v fs) = (k, v) ∷ entries fs

abbrev pub fields : Dict Value → Fields
fields [] = end
fields ((k, v) ∷ d) = field k v (fields d)

-- A dict, or a list, as a value.
abbrev pub of_dict : Dict Value → Value
of_dict d = dict (fields d)

-- `bool(v)`: an object that defines no truth value of its own is true.
unfoldable pub truthy : Value → Bool
truthy null = false
truthy (bool b) = b
truthy (num n) = not (eqb n 0)
truthy (str s) = not (s == "")
truthy (list nil) = false
truthy (list (cons v vs)) = true
truthy (dict end) = false
truthy (dict (field k v fs)) = true
truthy (object n) = true

pub entries-fields : (d : Dict Value) → entries (fields d) ≡ d
entries-fields [] = refl
entries-fields ((k, v) ∷ d) = ap (λ (r : Dict Value). (k, v) ∷ r) (entries-fields d)
