-- ===== src/Plan/Predicate/Typing.antt =====
-- When a predicate evaluates: its fields are bound, and what it orders are numbers.
use nexus_agent_demo.Prelude.{
  Bool, true, false, not, ◌&&◌, ◌||◌, Option, some, List, [], ◌∷◌, ◌≡◌, refl, ◌↔◌, ◌⊎◌, inl, inr,
  Any, arith,
}
use nexus_agent_demo.Prelude.Result.{ok}
use nexus_agent_demo.Prelude.Text.{Text, text_eq_sound, text_eq_iff}
use nexus_agent_demo.Prelude.Float.{float_eq, float_lt}
use nexus_agent_demo.Plan.Predicate.{
  ValueKind, kind_string, kind_number, kind_bool, Value, equal_at, op_eq, op_ne, op_lt, op_gt,
  op_and, op_or, op_in, op_other, Predicate, predicate, Predicates, nil, cons, Context, and_then,
  or_else, value_equal, less, is_among, eval, eval_and, eval_or,
}

-- The kinds of the variables that a run declares.
abbrev pub Kinds : Type 0
Kinds = Text → Option ValueKind

-- The context binds each declared variable to its value under `values`, which has the kind.
abbrev pub IsFitting : Kinds → (Text → Value) → Context → Type 0
IsFitting kinds values ctx =
    (x : Text) (k : ValueKind)
    → kinds x ≡ some k
    → (ctx x ≡ some (values x)) × ((values x).kind ≡ k)

abbrev IsDeclared : Kinds → Text → Type 0
IsDeclared kinds x = (k : ValueKind) × (kinds x ≡ some k)

abbrev mutual
  pub IsTyped : Kinds → Predicate → Type 0
  IsTyped kinds (predicate op_and field value values ands ors) = AreTyped kinds ands
  IsTyped kinds (predicate op_or field value values ands ors) = AreTyped kinds ors
  IsTyped kinds (predicate op_eq field value values ands ors) = IsDeclared kinds field
  IsTyped kinds (predicate op_ne field value values ands ors) = IsDeclared kinds field
  IsTyped kinds (predicate op_in field value values ands ors) = IsDeclared kinds field
  IsTyped kinds (predicate op_lt field value values ands ors) =
      (kinds field ≡ some kind_number) × (value.kind ≡ kind_number)
  IsTyped kinds (predicate op_gt field value values ands ors) =
      (kinds field ≡ some kind_number) × (value.kind ≡ kind_number)
  IsTyped kinds (predicate (op_other name) field value values ands ors) = ⊥

  pub AreTyped : Kinds → Predicates → Type 0
  AreTyped kinds nil = Unit
  AreTyped kinds (cons sub subs) = IsTyped kinds sub × AreTyped kinds subs

-- The values' fields of their kind are equal; a number is IEEE's, so that a NaN equals nothing.
abbrev IsEqualAt : ValueKind → ValueKind → Value → Value → Type 0
IsEqualAt kind_string kind_string v o = v.str ≡ o.str
IsEqualAt kind_number kind_number v o = float_eq v.num o.num ≡ true
IsEqualAt kind_bool kind_bool v o = v.bool ≡ o.bool
IsEqualAt _ _ v o = ⊥

abbrev pub IsEqualValue : Value → Value → Type 0
IsEqualValue v o = IsEqualAt v.kind o.kind v o

-- What the predicate says of the variables.
abbrev mutual
  pub Holds : (Text → Value) → Predicate → Type 0
  Holds σ (predicate op_and field value values ands ors) = AllHold σ ands
  Holds σ (predicate op_or field value values ands ors) = SomeHolds σ ors
  Holds σ (predicate op_eq field value values ands ors) = IsEqualValue (σ field) value
  Holds σ (predicate op_ne field value values ands ors) = ¬ IsEqualValue (σ field) value
  Holds σ (predicate op_lt field value values ands ors) = float_lt (σ field).num value.num ≡ true
  Holds σ (predicate op_gt field value values ands ors) = float_lt value.num (σ field).num ≡ true
  Holds σ (predicate op_in field value values ands ors) = Any (IsEqualValue (σ field)) values
  Holds σ (predicate (op_other name) field value values ands ors) = ⊥

  pub AllHold : (Text → Value) → Predicates → Type 0
  AllHold σ nil = Unit
  AllHold σ (cons sub subs) = Holds σ sub × AllHold σ subs

  pub SomeHolds : (Text → Value) → Predicates → Type 0
  SomeHolds σ nil = ⊥
  SomeHolds σ (cons sub subs) = Holds σ sub ⊎ SomeHolds σ subs

and_iff : (a b : Bool) (P Q : Type 0) → (a ≡ true) ↔ P → (b ≡ true) ↔ Q → (a && b ≡ true) ↔ (P × Q)
and_iff true b P Q p q = ((λ h. (p.0 refl, q.0 h)), (λ h. q.1 h.1))
and_iff false b P Q p q = ((λ h. absurd cc), (λ h. absurd (cc (p.1 h.0))))

or_iff : (a b : Bool) (P Q : Type 0) → (a ≡ true) ↔ P → (b ≡ true) ↔ Q → (a || b ≡ true) ↔ (P ⊎ Q)
or_iff true b P Q p q = ((λ h. inl (p.0 refl)), (λ h. refl))
or_iff false b P Q p q =
    ((λ h. inr (q.0 h)), (λ h. elim h [ inl x ↦ absurd (cc (p.1 x)) | inr y ↦ q.1 y ]))

not_iff : (a : Bool) (P : Type 0) → (a ≡ true) ↔ P → (not a ≡ true) ↔ (¬ P)
not_iff true P p = ((λ h. absurd cc), (λ n. absurd (n (p.0 refl))))
not_iff false P p = ((λ h x. cc (p.1 x)), (λ n. refl))

abbrev any_equal : Value → List Value → Bool
any_equal v [] = false
any_equal v (w ∷ ws) = value_equal v w || any_equal v ws

-- The same as a test, with neither errors nor an order of evaluation.
unfoldable mutual
  pub holds : (Text → Value) → Predicate → Bool
  holds σ (predicate op_and field value values ands ors) = all_hold σ ands
  holds σ (predicate op_or field value values ands ors) = some_holds σ ors
  holds σ (predicate op_eq field value values ands ors) = value_equal (σ field) value
  holds σ (predicate op_ne field value values ands ors) = not (value_equal (σ field) value)
  holds σ (predicate op_lt field value values ands ors) = float_lt (σ field).num value.num
  holds σ (predicate op_gt field value values ands ors) = float_lt value.num (σ field).num
  holds σ (predicate op_in field value values ands ors) = any_equal (σ field) values
  holds σ (predicate (op_other name) field value values ands ors) = false

  pub all_hold : (Text → Value) → Predicates → Bool
  all_hold σ nil = true
  all_hold σ (cons sub subs) = holds σ sub && all_hold σ subs

  pub some_holds : (Text → Value) → Predicates → Bool
  some_holds σ nil = false
  some_holds σ (cons sub subs) = holds σ sub || some_holds σ subs

IsEqual-sound : (v o : Value) (k l : ValueKind) → equal_at k l v o ≡ true → IsEqualAt k l v o
IsEqual-sound v o kind_string kind_string h = text_eq_sound v.str o.str h
IsEqual-sound v o kind_number kind_number h = h
IsEqual-sound v o kind_bool kind_bool h = ground (arith, h)
IsEqual-sound v o _ _ h = absurd cc

IsEqual-complete : (v o : Value) (k l : ValueKind) → IsEqualAt k l v o → equal_at k l v o ≡ true
IsEqual-complete v o kind_string kind_string h = (text_eq_iff v.str o.str).1 h
IsEqual-complete v o kind_number kind_number h = h
IsEqual-complete v o kind_bool kind_bool h = ground (arith, h)
IsEqual-complete v o _ _ h = absurd h

equal_iff : (v o : Value) → (value_equal v o ≡ true) ↔ IsEqualValue v o
unfolding value_equal
equal_iff v o = (IsEqual-sound v o v.kind o.kind, IsEqual-complete v o v.kind o.kind)

Any-iff : (v : Value) (ws : List Value) → (any_equal v ws ≡ true) ↔ Any (IsEqualValue v) ws
Any-iff v [] = ground arith
Any-iff v (w ∷ ws) =
    or_iff (value_equal v w) (any_equal v ws) (IsEqualValue v w) (Any (IsEqualValue v) ws)
      (equal_iff v w) (Any-iff v ws)

mutual
  unfolding holds

  holds_iff : (σ : Text → Value) (p : Predicate) → (holds σ p ≡ true) ↔ Holds σ p
  holds_iff σ (predicate op_and field value values ands ors) = all_iff σ ands
  holds_iff σ (predicate op_or field value values ands ors) = some_iff σ ors
  holds_iff σ (predicate op_eq field value values ands ors) = equal_iff (σ field) value
  holds_iff σ (predicate op_ne field value values ands ors) =
      not_iff (value_equal (σ field) value) (IsEqualValue (σ field) value)
        (equal_iff (σ field) value)
  holds_iff σ (predicate op_lt field value values ands ors) = (λ h. h, λ h. h)
  holds_iff σ (predicate op_gt field value values ands ors) = (λ h. h, λ h. h)
  holds_iff σ (predicate op_in field value values ands ors) = Any-iff (σ field) values
  holds_iff σ (predicate (op_other name) field value values ands ors) =
      ((λ h. absurd cc), (λ h. absurd h))

  all_iff : (σ : Text → Value) (ps : Predicates) → (all_hold σ ps ≡ true) ↔ AllHold σ ps
  all_iff σ nil = ((λ h. tt), (λ h. refl))
  all_iff σ (cons sub subs) =
      and_iff (holds σ sub) (all_hold σ subs) (Holds σ sub) (AllHold σ subs) (holds_iff σ sub)
        (all_iff σ subs)

  some_iff : (σ : Text → Value) (ps : Predicates) → (some_holds σ ps ≡ true) ↔ SomeHolds σ ps
  some_iff σ nil = ((λ h. absurd cc), (λ h. absurd h))
  some_iff σ (cons sub subs) =
      or_iff (holds σ sub) (some_holds σ subs) (Holds σ sub) (SomeHolds σ subs) (holds_iff σ sub)
        (some_iff σ subs)

is_among-any : (v : Value) (ws : List Value) → is_among v ws ≡ any_equal v ws
unfolding is_among
is_among-any v [] = refl
is_among-any v (w ∷ ws) = ground (arith, is_among-any v ws)

less_numbers :
    (v o : Value)
    → v.kind ≡ kind_number
    → o.kind ≡ kind_number
    → less v o ≡ ok (float_lt v.num o.num)
unfolding less
less_numbers v o h k = rw (h, k) refl

and_then-ok : (b c : Bool) → and_then (ok b) (ok c) ≡ ok (b && c)
and_then-ok true c = refl
and_then-ok false c = refl

or_else-ok : (b c : Bool) → or_else (ok b) (ok c) ≡ ok (b || c)
or_else-ok true c = refl
or_else-ok false c = refl

module _ (kinds : Kinds) (σ : Text → Value) (ctx : Context) (fit : IsFitting kinds σ ctx) where
  mutual
    unfolding eval holds

    eval_all : (p : Predicate) → IsTyped kinds p → eval ctx p ≡ ok (holds σ p)
    eval_all (predicate op_and field value values ands ors) t = eval_all_and ands t
    eval_all (predicate op_or field value values ands ors) t = eval_all_or ors t
    eval_all (predicate op_eq field value values ands ors) t = rw ((fit field t.0 t.1).0) refl
    eval_all (predicate op_ne field value values ands ors) t = rw ((fit field t.0 t.1).0) refl
    eval_all (predicate op_in field value values ands ors) t =
        rw ((fit field t.0 t.1).0, is_among-any (σ field) values) refl
    eval_all (predicate op_lt field value values ands ors) t =
        rw ((fit field kind_number t.0).0)
          (less_numbers (σ field) value (fit field kind_number t.0).1 t.1)
    eval_all (predicate op_gt field value values ands ors) t =
        rw ((fit field kind_number t.0).0)
          (less_numbers value (σ field) t.1 (fit field kind_number t.0).1)
    eval_all (predicate (op_other name) field value values ands ors) t = absurd t

    eval_all_and : (ps : Predicates) → AreTyped kinds ps → eval_and ctx ps ≡ ok (all_hold σ ps)
    eval_all_and nil t = refl
    eval_all_and (cons sub subs) t =
        rw (eval_all sub t.0, eval_all_and subs t.1) (and_then-ok (holds σ sub) (all_hold σ subs))

    eval_all_or : (ps : Predicates) → AreTyped kinds ps → eval_or ctx ps ≡ ok (some_holds σ ps)
    eval_all_or nil t = refl
    eval_all_or (cons sub subs) t =
        rw (eval_all sub t.0, eval_all_or subs t.1) (or_else-ok (holds σ sub) (some_holds σ subs))

  -- A predicate whose fields are declared, and that orders nothing but numbers, evaluates without an
  -- error in a context that binds each declared variable to a value of its kind; and it evaluates to
  -- true exactly if what it says holds of those values, `and` and `or` read without their order of
  -- evaluation, two values being equal if they have one kind and are equal in the field of that kind.
  pub eval-IsTyped :
      (p : Predicate)
      → IsTyped kinds p
      → (b : Bool) × (eval ctx p ≡ ok b) × ((b ≡ true) ↔ Holds σ p)
  eval-IsTyped p t = (holds σ p, eval_all p t, holds_iff σ p)
