-- ===== src/Prelude/Text.antt =====
-- The keys that the services build with format!("{}:{}", …), and when two of them agree.
use Prim.Native.Char.{Char, code}
use Prim.Native.String.{String, [], ◌∷◌, ◌++◌}
use mathlib.Core.Path.{◌≡◌, refl, sym, ap, ap₂, ◌∙◌, subst}
use mathlib.Core.Logic.{◌≢◌}
use text.Mathlib.TextLemmas.{
  nil-append, cons-append, head-eq_of_cons-eq, tail-eq_of_cons-eq, append_cancel_left,
}

-- format!("{}:{}", s, t)
pub colon : String → String → String
colon s t = s ++ (":" ++ t)

-- No character of the text is a colon.
abbrev pub NoColon : String → Type 0
NoColon [] = Unit {0}
NoColon (c ∷ s) = (code c ≢ b':') × NoColon s

colon-nil : (t : String) → colon [] t ≡ ":" ++ t
unfolding colon
colon-nil t = nil-append _

colon-cons : (c : Char) (s t : String) → colon (c ∷ s) t ≡ c ∷ colon s t
unfolding colon
colon-cons c s t = cons-append c s _

single-cons : (t : String) → ":" ++ t ≡ ":" ∷ t
single-cons t = cons-append ":" [] t ∙ ap (◌∷◌ ":") (nil-append t)

pub NoColon-colon : (s t : String) → NoColon (colon s t) → ⊥
NoColon-colon [] t h = (subst NoColon (colon-nil t ∙ single-cons t) h).0 refl
NoColon-colon (c ∷ s) t h = NoColon-colon s t (subst NoColon (colon-cons c s t) h).1

-- Where the last parts hold no colon, a key determines both of its parts.
pub colon_injective :
    (s s' t t' : String) → NoColon t → NoColon t' → colon s t ≡ colon s' t' → (s ≡ s') × (t ≡ t')
colon_injective [] [] t t' h h' e = (
  refl,
  tail-eq_of_cons-eq (sym (colon-nil t ∙ single-cons t) ∙ e ∙ (colon-nil t' ∙ single-cons t')),
)
colon_injective [] (c ∷ s') t t' h h' e =
    let p = sym (colon-nil t ∙ single-cons t) ∙ e ∙ colon-cons c s' t' in
    absurd (NoColon-colon s' t' (subst NoColon (tail-eq_of_cons-eq p) h))
colon_injective (c ∷ s) [] t t' h h' e =
    let p = sym (colon-nil t' ∙ single-cons t') ∙ sym e ∙ colon-cons c s t in
    absurd (NoColon-colon s t (subst NoColon (tail-eq_of_cons-eq p) h'))
colon_injective (c ∷ s) (d ∷ s') t t' h h' e =
    let p = sym (colon-cons c s t) ∙ e ∙ colon-cons d s' t' in
    let (ps, pt) = colon_injective s s' t t' h h' (tail-eq_of_cons-eq p) in
    (ap₂ ◌∷◌ (head-eq_of_cons-eq p) ps, pt)

pub colon_cancel_left : (s t t' : String) → colon s t ≡ colon s t' → t ≡ t'
unfolding colon
colon_cancel_left s t t' e = append_cancel_left ":" t t' (append_cancel_left s _ _ e)
