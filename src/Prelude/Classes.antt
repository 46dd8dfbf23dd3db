-- ===== src/Prelude/Classes.antt =====
-- Decidable equality as an interface, with its instances at the types that the services compare.
use Prim.Native.Nat.{ℕ}
use Prim.Native.String.{String}
use mathlib.Core.Path.{◌≡◌, refl, sym, ◌∙◌}
use mathlib.Core.Logic.{◌↔◌, ◌⊎◌, inl, inr}
use mathlib.Core.Bool.{Bool, true, false, false≢true}
use text.Mathlib.Text.{◌==◌ as str_eq}
use text.Mathlib.TextEquality.{eq_iff}
use kafka_cad.Prelude.Tests.{◌==◌ as nat_beq, ==_iff}
use kafka_cad.Prelude.Int.{ℤ, beq_ℤ, beq_ℤ_iff}

pub record Eq {ℓ} (A : Type ℓ) : Type ℓ where
  pub beq : A → A → Bool
  pub beq_iff : (x y : A) → (beq x y ≡ true) ↔ (x ≡ y)

instance abbrev pub int_eq : Eq ℤ
int_eq = record { beq_iff = beq_ℤ_iff; beq = beq_ℤ }

instance abbrev pub string_eq : Eq String
string_eq = record { beq_iff = eq_iff; beq = str_eq }

instance abbrev pub nat_eq : Eq ℕ
nat_eq = record { beq_iff = ==_iff; beq = nat_beq }

infix 50 ◌==◌
abbrev pub ◌==◌ {ℓ} : {A : Type ℓ} ⦃e : Eq A⦄ → A → A → Bool
◌==◌ ⦃e⦄ x y = e.beq x y

-- To split on a comparison and keep what it says.
pub Eq-cases {ℓ} :
    {A : Type ℓ} ⦃e : Eq A⦄ (a b : A)
    → ((a == b) ≡ true) × (a ≡ b) ⊎ ((a == b) ≡ false) × (¬ (a ≡ b))
Eq-cases ⦃e⦄ a b = go (a == b) (e.beq_iff a b)
  where
    go : (t : Bool) → (t ≡ true) ↔ (a ≡ b) → (t ≡ true) × (a ≡ b) ⊎ (t ≡ false) × (¬ (a ≡ b))
    go true h = inl (refl, h.0 refl)
    go false h = inr (refl, λ p. cc (h.1 p))

pub ==_refl {ℓ} : {A : Type ℓ} ⦃e : Eq A⦄ (a : A) → (a == a) ≡ true
==_refl ⦃e⦄ a = (e.beq_iff a a).1 refl

pub ne_of_beq {ℓ} : {A : Type ℓ} ⦃e : Eq A⦄ (a b : A) → (a == b) ≡ false → ¬ (a ≡ b)
ne_of_beq ⦃e⦄ a b t p = false≢true (sym t ∙ (e.beq_iff a b).1 p)
