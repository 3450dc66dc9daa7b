-- ===== src/Prelude/Text.antt =====
-- Texts as lists of bytes, with what the code uses of Go's strings.
use Prim.Native.Char.{code}
use Prim.Native.String.{String}
use Prim.Native.Nat.{ℕ}
use mathlib.Core.Path.{◌≡◌, refl, ap}
use mathlib.Core.Logic.{◌↔◌}
use mathlib.Core.Bool.{Bool, true, false, ◌&&◌}
use mathlib.Core.Option.{Option, none, some}
use mathlib.Core.List.{List, [], ◌∷◌, ◌++◌}
use native.Mathlib.Omega.{arith}
use nexus_agent_demo.Prelude.Lists.{length, length-append}
use nexus_agent_demo.Prelude.Tests.{◌==◌, if◌then◌else◌}

abbrev pub Text : Type 0
Text = List ℕ

-- The bytes of an ASCII literal.
abbrev pub codes : String → Text
codes String.[] = []
codes (String.◌∷◌ c s) = code c ∷ codes s

-- s == t
unfoldable pub text_eq : Text → Text → Bool
text_eq [] [] = true
text_eq [] (d ∷ t) = false
text_eq (c ∷ s) [] = false
text_eq (c ∷ s) (d ∷ t) = (c == d) && text_eq s t

pub text_eq_sound : (s t : Text) → text_eq s t ≡ true → s ≡ t
unfolding text_eq
text_eq_sound [] [] h = refl
text_eq_sound [] (d ∷ t) h = cc
text_eq_sound (c ∷ s) [] h = cc
text_eq_sound (c ∷ s) (d ∷ t) h = ground (arith, text_eq_sound s t)

pub text_eq_refl : (s : Text) → text_eq s s ≡ true
unfolding text_eq
text_eq_refl [] = refl
text_eq_refl (c ∷ s) = ground (arith, text_eq_refl s)

pub text_eq_iff : (s t : Text) → (text_eq s t ≡ true) ↔ (s ≡ t)
text_eq_iff s t = (text_eq_sound s t, λ e. rw e (text_eq_refl t))

abbrev cons_before : ℕ → Option Text → Option Text
cons_before c none = none
cons_before c (some p) = some (c ∷ p)

-- strings.CutSuffix: what stands before `suffix` at the end of the text, if it stands there.
unfoldable pub cut_suffix : Text → Text → Option Text
unfolding text_eq
cut_suffix [] suffix = if text_eq [] suffix then some [] else none
cut_suffix (c ∷ s) suffix =
    if text_eq (c ∷ s) suffix then some [] else cons_before c (cut_suffix s suffix)

pub cut_suffix_sound : (s suffix p : Text) → cut_suffix s suffix ≡ some p → s ≡ p ++ suffix
unfolding cut_suffix
cut_suffix_sound [] suffix p h = ground (arith, text_eq_sound [] suffix)
cut_suffix_sound (c ∷ s) suffix [] h = ground (arith, text_eq_sound (c ∷ s) suffix)
cut_suffix_sound (c ∷ s) suffix (d ∷ p) h = ground (arith, cut_suffix_sound s suffix p)

longer : (c : ℕ) (p suffix : Text) → ¬ (text_eq ((c ∷ p) ++ suffix) suffix ≡ true)
longer c p suffix h =
    omega (arith, length-append p suffix, ap length (text_eq_sound ((c ∷ p) ++ suffix) suffix h))

empty_suffix : (suffix : Text) → cut_suffix suffix suffix ≡ some []
unfolding cut_suffix
empty_suffix [] = refl
empty_suffix (c ∷ s) = rw (text_eq_refl (c ∷ s))

pub cut_suffix-append : (p suffix : Text) → cut_suffix (p ++ suffix) suffix ≡ some p
unfolding cut_suffix
cut_suffix-append [] suffix = empty_suffix suffix
cut_suffix-append (c ∷ p) suffix = ground (arith, longer c p suffix, cut_suffix-append p suffix)
