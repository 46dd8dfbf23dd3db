-- ===== src/Examples/Printing.antt =====
-- A text for each RefId that no other one has, as the derived Debug gives one.
use Prim.Native.String.{String, [], ◌∷◌}
use text.Mathlib.TextLemmas.{tail-eq_of_cons-eq}
use kafka_cad.Prelude.{ℕ, zero, suc, ◌+◌, ◌*◌, ◌≡◌, refl, ap, arith}
use kafka_cad.Prelude.Int.{ℤ, pos, negsuc}
use kafka_cad.Prelude.Text.{colon, NoColon, colon_injective}
use kafka_cad.Dependencies.Refs.{RefId, RefId-ext}

abbrev bars : ℕ → String
bars zero = []
bars (suc n) = "|" ∷ bars n

bars_injective : (m n : ℕ) → bars m ≡ bars n → m ≡ n
bars_injective zero zero p = refl
bars_injective zero (suc n) p = cc p
bars_injective (suc m) zero p = cc p
bars_injective (suc m) (suc n) p = ap suc (bars_injective m n (tail-eq_of_cons-eq p))

bars-NoColon : (n : ℕ) → NoColon (bars n)
bars-NoColon zero = tt
bars-NoColon (suc n) = (omega arith, bars-NoColon n)

abbrev number_of : ℤ → ℕ
number_of (pos n) = 2 * n
number_of (negsuc n) = 2 * n + 1

number_of_injective : (a b : ℤ) → number_of a ≡ number_of b → a ≡ b
number_of_injective (pos m) (pos n) p = ap pos (omega (arith, p))
number_of_injective (negsuc m) (negsuc n) p = ap negsuc (omega (arith, p))
number_of_injective (pos m) (negsuc n) p = absurd (omega (arith, p))
number_of_injective (negsuc m) (pos n) p = absurd (omega (arith, p))

abbrev pub print : RefId → String
print r = colon (colon r.id (bars (number_of r.ref_type))) (bars r.index)

pub print_injective : (a b : RefId) → print a ≡ print b → a ≡ b
print_injective a b p =
    let (q, i) = colon_injective _ _ _ _ (bars-NoColon a.index) (bars-NoColon b.index) p in
    let (n, t) =
      colon_injective a.id b.id _ _ (bars-NoColon (number_of a.ref_type))
        (bars-NoColon (number_of b.ref_type)) q in
    RefId-ext a b n (number_of_injective a.ref_type b.ref_type (bars_injective _ _ t))
      (bars_injective a.index b.index i)
