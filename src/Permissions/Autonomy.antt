-- ===== src/Permissions/Autonomy.antt =====
-- internal/permissions/autonomy.go: layer 3, the one-way ratchet of a session's level.
use nexus_agent_demo.Prelude.{
  ℕ, ◌≤◌, Bool, true, false, Option, none, some, List, [], ◌∷◌, arith, ltb, ◌==◌, if◌then◌else◌,
}
use nexus_agent_demo.Prelude.Text.{Text, codes, text_eq}
use nexus_agent_demo.Permissions.Types.{
  Decision, ask, deny, LayerOutcome, EffectClass, read_only, once, denies, defers, asks,
  read_only_effect, read_only_level_denies, level_requires_approval, autonomous_defers,
  unrecognized_level,
}

-- The integer levels, loosest last.
abbrev pub autonomy_read_only : ℕ
autonomy_read_only = 0

abbrev pub autonomy_supervised : ℕ
autonomy_supervised = 1

abbrev pub autonomy_autonomous : ℕ
autonomy_autonomous = 2

-- The level with, for an unknown text, the error beside the level that the caller still gets.
unfoldable pub parse_autonomy_level : Text → ℕ × Option Text
parse_autonomy_level s =
    if text_eq s (codes "read_only")
    then (autonomy_read_only, none)
    else if text_eq s (codes "supervised")
    then (autonomy_supervised, none)
    else if text_eq s (codes "autonomous")
    then (autonomy_autonomous, none)
    else (autonomy_read_only, some s)

pub record Autonomy : Type 0 where
  pub level : ℕ

unfoldable pub pin : ℕ → Autonomy
pin level = record { level = level }

-- The session's level after the call, and whether the call was refused.
unfoldable pub tighten : Autonomy → ℕ → Autonomy × Bool
tighten a target = if ltb a.level target then (a, true) else (record a { level = target }, false)

abbrev is_read_only : EffectClass → Bool
is_read_only read_only = true
is_read_only _ = false

unfoldable pub resolve_autonomy : Autonomy → EffectClass → LayerOutcome
resolve_autonomy a effect_class =
    if is_read_only effect_class
    then defers read_only_effect
    else if a.level == autonomy_read_only
    then denies read_only_level_denies
    else if a.level == autonomy_supervised
    then asks once (level_requires_approval effect_class)
    else if a.level == autonomy_autonomous
    then defers autonomous_defers
    else denies (unrecognized_level a.level)

-- How much a decision stops: the order in which a tighter level may only rise.
abbrev pub strictness : Decision → ℕ
strictness deny = 2
strictness ask = 1
strictness _ = 0

unfoldable pub tighten_all : Autonomy → List ℕ → Autonomy
tighten_all a [] = a
tighten_all a (t ∷ ts) = tighten_all (tighten a t).0 ts

pub tighten_all-le : (a : Autonomy) (targets : List ℕ) → (tighten_all a targets).level ≤ a.level
unfolding tighten_all tighten
tighten_all-le a [] = omega arith
tighten_all-le a (t ∷ ts) = ground (arith, tighten_all-le (tighten a t).0 ts)

-- Whatever targets a session is tightened to, in any order and with refused ones among them,
-- its layer 3 is afterwards at least as strict for every effect class, if its level was one
-- of the three.
pub tighten_all-strictness :
    (a : Autonomy) (targets : List ℕ) (e : EffectClass)
    → a.level ≤ autonomy_autonomous
    → strictness (resolve_autonomy a e).decision
      ≤ strictness (resolve_autonomy (tighten_all a targets) e).decision
unfolding resolve_autonomy
tighten_all-strictness a targets e h = ground (arith, tighten_all-le a targets)
