-- ===== src/Plan/Predicate.antt =====
-- internal/plan/predicate.go: the typed values and the closed predicates over a run's variables.
-- A float64 is its 64 bits (Prelude.Float), a map from texts is a function.
pub mod Typing
use nexus_agent_demo.Prelude.{
  ℕ, suc, ◌+◌, Bool, true, false, not, ◌&&◌, Option, none, some, List, [], ◌∷◌, if◌then◌else◌, ltb,
}
use nexus_agent_demo.Prelude.Result.{Result, ok, err}
use nexus_agent_demo.Prelude.Float.{float_eq, float_lt}
use nexus_agent_demo.Prelude.Text.{Text, text_eq}

-- ValueKind, a string that may be none of the three names.
pub data ValueKind : Type 0 where
  kind_string kind_number kind_bool : ValueKind
  kind_other : Text → ValueKind

pub record Value : Type 0 where
  pub kind : ValueKind
  pub str : Text
  pub num : ℕ
  pub bool : Bool

unfoldable pub string_value : Text → Value
string_value s = record { kind = kind_string; str = s; num = 0; bool = false }

unfoldable pub number_value : ℕ → Value
number_value n = record { kind = kind_number; str = []; num = n; bool = false }

unfoldable pub bool_value : Bool → Value
bool_value b = record { kind = kind_bool; str = []; num = 0; bool = b }

abbrev same_bool : Bool → Bool → Bool
same_bool true b = b
same_bool false b = not b

-- The kind's field of the two values, where the kinds are the same.
abbrev pub equal_at : ValueKind → ValueKind → Value → Value → Bool
equal_at kind_string kind_string v o = text_eq v.str o.str
equal_at kind_number kind_number v o = float_eq v.num o.num
equal_at kind_bool kind_bool v o = same_bool v.bool o.bool
equal_at _ _ v o = false

unfoldable pub value_equal : Value → Value → Bool
unfolding text_eq
value_equal v o = equal_at v.kind o.kind v o

pub data EvalError : Type 0 where
  not_numbers : ValueKind → ValueKind → EvalError
  unbound_field : Text → EvalError
  unrecognized_op : Text → EvalError

abbrev less_at : ValueKind → ValueKind → Value → Value → Result EvalError Bool
less_at kind_number kind_number v o = ok (float_lt v.num o.num)
less_at k l v o = err (not_numbers k l)

unfoldable pub less : Value → Value → Result EvalError Bool
unfolding float_lt
less v o = less_at v.kind o.kind v o

-- Op, a string that may be none of the seven names.
pub data Op : Type 0 where
  op_eq op_ne op_lt op_gt op_and op_or op_in : Op
  op_other : Text → Op

-- `predicate op field value values and or`
mutual
  pub data Predicate : Type 0 where
    predicate : Op → Text → Value → List Value → Predicates → Predicates → Predicate

  pub data Predicates : Type 0 where
    nil : Predicates
    cons : Predicate → Predicates → Predicates

abbrev pub Context : Type 0
Context = Text → Option Value

-- The loop of OpIn.
unfoldable pub is_among : Value → List Value → Bool
unfolding value_equal
is_among v [] = false
is_among v (cand ∷ values) = if value_equal v cand then true else is_among v values

-- The five operators that compare a field, at the field's value.
abbrev eval_leaf : Op → Value → Value → List Value → Result EvalError Bool
eval_leaf op_eq v value values = ok (value_equal v value)
eval_leaf op_ne v value values = ok (not (value_equal v value))
eval_leaf op_lt v value values = less v value
eval_leaf op_gt v value values = less value v
eval_leaf op_in v value values = ok (is_among v values)
eval_leaf op v value values = err (unrecognized_op [])

abbrev eval_field : Op → Text → Option Value → Value → List Value → Result EvalError Bool
eval_field op field none value values = err (unbound_field field)
eval_field op field (some v) value values = eval_leaf op v value values

-- One round of the loop of OpAnd (OpOr): the operand's result, and what the rest gives.
abbrev pub and_then : Result EvalError Bool → Result EvalError Bool → Result EvalError Bool
and_then (ok true) rest = rest
and_then (ok false) rest = ok false
and_then (err e) rest = err e

abbrev pub or_else : Result EvalError Bool → Result EvalError Bool → Result EvalError Bool
or_else (ok true) rest = ok true
or_else (ok false) rest = rest
or_else (err e) rest = err e

unfoldable mutual
  unfolding value_equal less is_among

  pub eval : Context → Predicate → Result EvalError Bool
  eval ctx (predicate op_and field value values ands ors) = eval_and ctx ands
  eval ctx (predicate op_or field value values ands ors) = eval_or ctx ors
  eval ctx (predicate (op_other name) field value values ands ors) = err (unrecognized_op name)
  eval ctx (predicate op field value values ands ors) = eval_field op field (ctx field) value values

  pub eval_and : Context → Predicates → Result EvalError Bool
  eval_and ctx nil = ok true
  eval_and ctx (cons sub subs) = and_then (eval ctx sub) (eval_and ctx subs)

  pub eval_or : Context → Predicates → Result EvalError Bool
  eval_or ctx nil = ok false
  eval_or ctx (cons sub subs) = or_else (eval ctx sub) (eval_or ctx subs)
