-- ===== src/Permissions/Glob.antt =====
-- internal/permissions/glob.go
use nexus_agent_demo.Prelude.{
  ◌↔◌, ◌≡◌, refl, ◌≢◌, inl, inr, Bool, true, ◌||◌, Option, none, some, [], ◌++◌, arith, Bool-cases,
  Option-cases, if◌then◌else◌,
}
use nexus_agent_demo.Prelude.Text.{
  Text, codes, text_eq, text_eq_iff, text_eq_refl, cut_suffix, cut_suffix_sound, cut_suffix-append,
}

abbrev star : Text
star = codes "*"

abbrev pub any_of : Text
any_of = codes "/*"

-- The third and fourth case of the switch: HasSuffix with TrimSuffix, or the bare namespace.
by_namespace : Option Text → Text → Text → Bool
by_namespace (some stem) pattern namespace = text_eq stem namespace
by_namespace none pattern namespace = text_eq pattern namespace

unfoldable pub match_glob : Text → Text → Text → Bool
unfolding by_namespace
match_glob pattern tool_id namespace =
    if text_eq pattern [] || text_eq pattern star
    then true
    else if text_eq pattern tool_id
    then true
    else by_namespace (cut_suffix pattern any_of) pattern namespace

-- What a pattern means: everything, one tool, or all of one namespace, by its name or by `ns/*`.
pub data Covers (tool_id namespace : Text) (pattern : Text) : Type 0 where
  everything : pattern ≡ [] → Covers tool_id namespace pattern
  everything_star : pattern ≡ codes "*" → Covers tool_id namespace pattern
  exact : pattern ≡ tool_id → Covers tool_id namespace pattern
  all_of : pattern ≡ namespace ++ any_of → Covers tool_id namespace pattern
  bare :
      ((stem : Text) → pattern ≢ stem ++ any_of)
      → pattern ≡ namespace
      → Covers tool_id namespace pattern

sound :
    (o : Option Text) (pattern tool_id namespace : Text)
    → cut_suffix pattern any_of ≡ o
    → by_namespace o pattern namespace ≡ true
    → Covers tool_id namespace pattern
unfolding by_namespace
sound (some stem) pattern tool_id namespace e h =
    all_of (cc (cut_suffix_sound pattern any_of stem e, (text_eq_iff stem namespace).0 h))
sound none pattern tool_id namespace e h =
    bare (λ stem q. cc (cut_suffix-append stem any_of)) ((text_eq_iff pattern namespace).0 h)

match_glob-Covers :
    (pattern tool_id namespace : Text)
    → match_glob pattern tool_id namespace ≡ true
    → Covers tool_id namespace pattern
unfolding match_glob
match_glob-Covers pattern tool_id namespace h = elim (Bool-cases (text_eq pattern [])) [
  | inl e ↦ everything ((text_eq_iff pattern []).0 e)
  | inr n1 ↦ elim (Bool-cases (text_eq pattern star)) [
    | inl e ↦ everything_star ((text_eq_iff pattern star).0 e)
    | inr n2 ↦ elim (Bool-cases (text_eq pattern tool_id)) [
      | inl e ↦ exact ((text_eq_iff pattern tool_id).0 e)
      | inr n3 ↦
          sound (cut_suffix pattern any_of) pattern tool_id namespace refl (rw (n1, n2, n3) at h)
    ]
  ]
]

Covers-match_glob :
    (pattern tool_id namespace : Text)
    → Covers tool_id namespace pattern
    → match_glob pattern tool_id namespace ≡ true
unfolding match_glob
Covers-match_glob pattern tool_id namespace (everything e) =
    ground (arith, (text_eq_iff pattern []).1 e)
Covers-match_glob pattern tool_id namespace (everything_star e) =
    ground (arith, (text_eq_iff pattern star).1 e)
Covers-match_glob pattern tool_id namespace (exact e) =
    ground (arith, (text_eq_iff pattern tool_id).1 e)
Covers-match_glob pattern tool_id namespace (all_of e) =
    ground (arith, cut_suffix-append namespace any_of, text_eq_refl namespace, e)
Covers-match_glob pattern tool_id namespace (bare n e) =
    elim (Option-cases (cut_suffix pattern any_of)) [
      | inl q ↦ ground (arith, q, (text_eq_iff pattern namespace).1 e)
      | inr (stem, q) ↦ absurd (n stem (cut_suffix_sound pattern any_of stem q))
    ]

-- `match_glob` holds exactly for the patterns that cover the tool: the empty one and `*`, the
-- tool's own reference, `ns/*` for the tool's namespace `ns`, and the bare namespace where the
-- pattern does not end in `/*`.
pub match_glob_iff :
    (pattern tool_id namespace : Text)
    → (match_glob pattern tool_id namespace ≡ true) ↔ Covers tool_id namespace pattern
match_glob_iff p t n = (match_glob-Covers p t n, Covers-match_glob p t n)
