-- ===== src/Memory/Screen/Verdict.antt =====
-- When the screen lets a text pass.
use nexus_agent_demo.Prelude.{
  ◌≡◌, refl, Bool, true, false, ◌&&◌, ◌||◌, not, List, [], ◌∷◌, ◌++◌, arith, Bool-cases, inl, inr,
  ◌∙◌,
}
use nexus_agent_demo.Prelude.Text.{Text, codes}
use nexus_agent_demo.Memory.Screen.{
  AdmissionStatus, Descriptor, Finding, Pattern, Patterns, ScreenStatus, admission_clean, check,
  check_fields, contains_exfiltration, exfiltrations, injections, is_empty, scan, scan_suspicious,
  screen, screen_clean, verdict, is_flagged, is_rejected,
}

abbrev pub passes : ScreenStatus → Bool
passes screen_clean = true
passes _ = false

-- No pattern of the list matches the text.
abbrev pub is_quiet : List Pattern → Text → Bool
is_quiet [] text = true
is_quiet (p ∷ patterns) text = not (p.matches text) && is_quiet patterns text

-- A text is blank, or no pattern matches it, and none of Scan's matches the schema, which is empty.
abbrev pub is_harmless : Patterns → Text → Bool
is_harmless ps text =
    ps.is_blank text
    || (((is_quiet ps.injection text && is_quiet ps.injection [])
          && (is_quiet ps.suspicious text && is_quiet ps.suspicious []))
        && is_quiet ps.exfiltration text)

is_empty-append {ℓ} :
    {A : Type ℓ} → (xs ys : List A) → is_empty (xs ++ ys) ≡ is_empty xs && is_empty ys
is_empty-append [] ys = refl
is_empty-append (x ∷ xs) ys = refl

check-quiet :
    (patterns : List Pattern) (field text : Text)
    → is_empty (check patterns field text) ≡ is_quiet patterns text
unfolding check
check-quiet [] field text = refl
check-quiet (p ∷ patterns) field text = ground (arith, check-quiet patterns field text)

check_fields-quiet :
    (patterns : List Pattern) (d : Descriptor)
    → is_empty (check_fields patterns d)
      ≡ is_quiet patterns d.description && is_quiet patterns d.input_schema
check_fields-quiet patterns d =
    is_empty-append (check patterns (codes "description") d.description)
      (check patterns (codes "input_schema") d.input_schema)
    ∙ rw
        (
          check-quiet patterns (codes "description") d.description,
          check-quiet patterns (codes "input_schema") d.input_schema,
        )
        refl

exfiltrations-quiet :
    (patterns : List Pattern) (text : Text)
    → is_empty (exfiltrations patterns text) ≡ is_quiet patterns text
unfolding exfiltrations
exfiltrations-quiet [] text = refl
exfiltrations-quiet (p ∷ patterns) text = ground (arith, exfiltrations-quiet patterns text)

contains-exfiltrations :
    (patterns : List Pattern) (text : Text) (findings : List Finding)
    → contains_exfiltration (injections findings ++ exfiltrations patterns text)
      ≡ not (is_quiet patterns text)
unfolding contains_exfiltration injections exfiltrations
contains-exfiltrations [] text [] = refl
contains-exfiltrations (p ∷ patterns) text [] = elim (Bool-cases (p.matches text)) [
  | inl e ↦ rw e refl
  | inr e ↦ rw e (contains-exfiltrations patterns text [])
]
contains-exfiltrations patterns text (f ∷ findings) = contains-exfiltrations patterns text findings

verdict-passes :
    (status : AdmissionStatus) (findings : List Text)
    → passes (verdict status findings)
      ≡ not (is_rejected status || is_flagged status)
        && (not (contains_exfiltration findings) && is_empty findings)
unfolding verdict
verdict-passes status findings = ground arith

-- The schema and the description of what the scan lets pass.
abbrev is_admissible : Patterns → Descriptor → Bool
is_admissible ps d =
    is_empty (check_fields ps.injection d) && is_empty (check_fields ps.suspicious d)

scan-admissible :
    (ps : Patterns) (d : Descriptor)
    → ps.is_blank d.description ≡ false
    → is_admissible ps d ≡ true
    → scan ps d ≡ (admission_clean, [])
unfolding scan scan_suspicious
scan-admissible ps d b h = ground (arith, b, h)

scan-inadmissible :
    (ps : Patterns) (d : Descriptor)
    → is_admissible ps d ≡ false
    → is_rejected (scan ps d).0 || is_flagged (scan ps d).0 ≡ true
unfolding scan scan_suspicious
scan-inadmissible ps d h = ground (arith, h)

abbrev description_of : Text → Descriptor
description_of text = record { description = text; input_schema = [] }

clean-passes :
    (ps : Patterns) (text : Text)
    → passes (verdict admission_clean (exfiltrations ps.exfiltration text))
      ≡ is_quiet ps.exfiltration text
unfolding injections
clean-passes ps text =
    let c = contains-exfiltrations ps.exfiltration text [] in
    let q = exfiltrations-quiet ps.exfiltration text in
    let v = verdict-passes admission_clean (exfiltrations ps.exfiltration text) in
    ground (arith, c, q, v)

screen-admissible :
    (ps : Patterns) (text : Text)
    → ps.is_blank text ≡ false
    → passes (screen ps text).0
      ≡ is_admissible ps (description_of text) && is_quiet ps.exfiltration text
unfolding screen injections
screen-admissible ps text b =
    let d : Descriptor = description_of text in
    let findings : List Text = injections (scan ps d).1 ++ exfiltrations ps.exfiltration text in
    elim (Bool-cases (is_admissible ps d)) [
      | inl e ↦ rw (b, e, scan-admissible ps d b e) (clean-passes ps text)
      | inr e ↦
          rw (b, e) (verdict-passes (scan ps d).0 findings ∙ rw (scan-inadmissible ps d e) refl)
    ]

-- A text passes the screen exactly if it is blank, or no pattern matches it, and none of Scan's
-- patterns matches the schema, which is empty.
pub screen-is_harmless :
    (ps : Patterns) (text : Text) → passes (screen ps text).0 ≡ is_harmless ps text
unfolding screen
screen-is_harmless ps text =
    let d : Descriptor = description_of text in
    let i = check_fields-quiet ps.injection d in
    let s = check_fields-quiet ps.suspicious d in
    elim (Bool-cases (ps.is_blank text)) [
      | inl b ↦ rw b refl
      | inr b ↦ screen-admissible ps text b ∙ rw (i, s, b) refl
    ]
