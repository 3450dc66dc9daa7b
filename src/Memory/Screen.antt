-- ===== src/Memory/Screen.antt =====
-- internal/memory/screen.go, with Scan of internal/tools/admit.go. The engine of the regular
-- expressions and strings.TrimSpace are arguments: a pattern is its text with the test that it stands for.
pub mod Verdict
use nexus_agent_demo.Prelude.{
  ℕ, Bool, true, false, ◌&&◌, ◌||◌, not, List, [], ◌∷◌, ◌++◌, if◌then◌else◌, ◌==◌,
}
use nexus_agent_demo.Prelude.Text.{Text, codes}

pub record Pattern : Type 0 where
  -- p.String()
  pub source : Text
  -- p.MatchString
  pub matches : Text → Bool

pub record Patterns : Type 0 where
  pub injection : List Pattern
  pub suspicious : List Pattern
  pub exfiltration : List Pattern
  -- strings.TrimSpace(text) == ""
  pub is_blank : Text → Bool

pub record Descriptor : Type 0 where
  pub description : Text
  pub input_schema : Text

pub data AdmissionStatus : Type 0 where
  admission_pending admission_clean admission_flagged admission_rejected : AdmissionStatus

pub record Finding : Type 0 where
  pub pattern : Text
  pub field : Text

abbrev pub is_empty {ℓ} : {A : Type ℓ} → List A → Bool
is_empty [] = true
is_empty (x ∷ xs) = false

-- The closures `check` and `checkSuspicious` of Scan, which differ in the patterns.
unfoldable pub check : List Pattern → Text → Text → List Finding
check [] field text = []
check (p ∷ patterns) field text =
    let rest = check patterns field text in
    if p.matches text then record { pattern = p.source; field = field } ∷ rest else rest

abbrev pub check_fields : List Pattern → Descriptor → List Finding
check_fields patterns d =
    check patterns (codes "description") d.description
    ++ check patterns (codes "input_schema") d.input_schema

unfoldable pub scan_suspicious : Patterns → Descriptor → AdmissionStatus × List Finding
scan_suspicious ps d =
    let findings = check_fields ps.suspicious d in
    if is_empty findings
    then if ps.is_blank d.description
      then (
        admission_flagged,
        record { pattern = codes "empty description"; field = codes "description" } ∷ [],
      )
      else (admission_clean, [])
    else (admission_flagged, findings)

unfoldable pub scan : Patterns → Descriptor → AdmissionStatus × List Finding
scan ps d =
    let findings = check_fields ps.injection d in
    if is_empty findings then scan_suspicious ps d else (admission_rejected, findings)

-- memory.Status
pub data ScreenStatus : Type 0 where
  screen_clean screen_flagged screen_rejected : ScreenStatus

unfoldable pub injections : List Finding → List Text
injections [] = []
injections (f ∷ findings) = (codes "injection: " ++ f.pattern) ∷ injections findings

unfoldable pub exfiltrations : List Pattern → Text → List Text
exfiltrations [] text = []
exfiltrations (p ∷ patterns) text =
    let rest = exfiltrations patterns text in
    if p.matches text then (codes "exfiltration: " ++ p.source) ∷ rest else rest

-- len(f) >= len(prefix) && f[:len(prefix)] == prefix
abbrev pub has_prefix : Text → Text → Bool
has_prefix [] s = true
has_prefix (c ∷ prefix) [] = false
has_prefix (c ∷ prefix) (d ∷ s) = (c == d) && has_prefix prefix s

unfoldable pub contains_exfiltration : List Text → Bool
contains_exfiltration [] = false
contains_exfiltration (f ∷ findings) =
    has_prefix (codes "exfiltration:") f || contains_exfiltration findings

abbrev pub is_rejected : AdmissionStatus → Bool
is_rejected admission_rejected = true
is_rejected _ = false

abbrev pub is_flagged : AdmissionStatus → Bool
is_flagged admission_flagged = true
is_flagged _ = false

unfoldable pub verdict : AdmissionStatus → List Text → ScreenStatus
verdict status findings =
    if is_rejected status || contains_exfiltration findings
    then screen_rejected
    else if is_flagged status || not (is_empty findings)
    then screen_flagged
    else screen_clean

unfoldable pub screen : Patterns → Text → ScreenStatus × List Text
screen ps text =
    let scanned = scan ps (record { description = text; input_schema = [] }) in
    let findings = injections scanned.1 ++ exfiltrations ps.exfiltration text in
    if ps.is_blank text then (screen_clean, []) else (verdict scanned.0 findings, findings)
