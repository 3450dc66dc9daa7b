-- ===== src/Permissions/DenyRules.antt =====
-- internal/permissions/denyrules.go and profile.go: the layers 1 and 4, which look at the tool's
-- identity.
use nexus_agent_demo.Prelude.{
  ℕ, Bool, true, false, not, Option, none, some, List, [], ◌∷◌, ◌≡◌, refl, Any, arith, inl, inr,
  if◌then◌else◌, Bool-cases, ◌≢◌,
}
use nexus_agent_demo.Prelude.Text.{Text, text_eq}
use nexus_agent_demo.Permissions.Types.{
  LayerOutcome, deny, deny_rule, no_deny_rule, denies, defers, profile_member, no_profile,
}
use nexus_agent_demo.Permissions.Glob.{match_glob}

-- A compiled regular expression is the predicate that MatchString decides.
pub record DenyRule : Type 0 where
  pub name : Text
  pub tool : Text
  pub pattern : Option (Text → Bool)
  pub reason : Text

abbrev pattern_rejects : Option (Text → Bool) → Text → Bool
pattern_rejects none raw_input = false
pattern_rejects (some p) raw_input = not (p raw_input)

unfoldable pub matches : DenyRule → Text → Text → Text → Bool
matches r tool_id namespace raw_input =
    if not (match_glob r.tool tool_id namespace)
    then false
    else if pattern_rejects r.pattern raw_input
    then false
    else true

unfoldable pub resolve_deny_rules : List DenyRule → Text → Text → Text → LayerOutcome
resolve_deny_rules [] tool_id namespace raw_input = defers no_deny_rule
resolve_deny_rules (r ∷ rules) tool_id namespace raw_input =
    let rest = resolve_deny_rules rules tool_id namespace raw_input in
    if matches r tool_id namespace raw_input then denies (deny_rule r.name r.reason) else rest

-- map[string]bool: the members are the keys.
pub record ToolProfile : Type 0 where
  pub name : Text
  pub version : ℕ
  pub tools : List Text

unfoldable pub new_tool_profile : Text → ℕ → List Text → ToolProfile
new_tool_profile name version tool_refs = record {
  name = name;
  version = version;
  tools = tool_refs;
}

member : List Text → Text → Bool
member [] tool_id = false
member (t ∷ ts) tool_id = let rest = member ts tool_id in if text_eq t tool_id then true else rest

unfoldable pub has : ToolProfile → Text → Bool
unfolding member
has p tool_id = member p.tools tool_id

-- The set is its list of profiles.
unfoldable pub resolve_profiles : List ToolProfile → Text → LayerOutcome
resolve_profiles [] tool_id = denies no_profile
resolve_profiles (p ∷ ps) tool_id =
    let rest = resolve_profiles ps tool_id in
    if has p tool_id then defers (profile_member p.name p.version) else rest

-- The layer denies exactly when a rule matches.
pub resolve_deny_rules-deny :
    (rules : List DenyRule) (tool_id namespace raw_input : Text)
    → (resolve_deny_rules rules tool_id namespace raw_input).decision ≡ deny
    → Any (λ r. matches r tool_id namespace raw_input ≡ true) rules
unfolding resolve_deny_rules
resolve_deny_rules-deny [] t n i h = cc
resolve_deny_rules-deny (r ∷ rules) t n i h = elim (Bool-cases (matches r t n i)) [
  | inl e ↦ inl e
  | inr e ↦ inr (resolve_deny_rules-deny rules t n i (rw e at h))
]

pub deny-resolve_deny_rules :
    (rules : List DenyRule) (tool_id namespace raw_input : Text)
    → Any (λ r. matches r tool_id namespace raw_input ≡ true) rules
    → (resolve_deny_rules rules tool_id namespace raw_input).decision ≡ deny
unfolding resolve_deny_rules
deny-resolve_deny_rules [] t n i h = absurd h
deny-resolve_deny_rules (r ∷ rules) t n i (inl e) = rw e
deny-resolve_deny_rules (r ∷ rules) t n i (inr k) =
    ground (arith, deny-resolve_deny_rules rules t n i k)

pub resolve_profiles-defer :
    (ps : List ToolProfile) (tool_id : Text)
    → (resolve_profiles ps tool_id).decision ≢ deny
    → Any (λ p. has p tool_id ≡ true) ps
unfolding resolve_profiles
resolve_profiles-defer [] t h = absurd (h refl)
resolve_profiles-defer (p ∷ ps) t h = elim (Bool-cases (has p t)) [
  | inl e ↦ inl e
  | inr e ↦ inr (resolve_profiles-defer ps t (rw e at h))
]
