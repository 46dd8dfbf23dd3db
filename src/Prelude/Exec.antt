-- ===== src/Prelude/Exec.antt =====
-- Handlers that read and write a store and may fail. What was written before a failure stays
-- written, so the store comes back beside the error too.
use mathlib.Core.Path.{◌≡◌}
use kafka_cad.Prelude.Result.{Result, ok, err}

abbrev pub Exec : Type 0 → Type 0 → Type 0 → Type 0
Exec S E A = S → Result E A × S

abbrev pub continue : {S E A B : Type 0} → Result E A → (A → Exec S E B) → Exec S E B
continue (ok a) f s = f a s
continue (err e) f s = (err e, s)

infixl 5 ◌>>=◌ ◌>>◌
abbrev pub ◌>>=◌ : {S E A B : Type 0} → Exec S E A → (A → Exec S E B) → Exec S E B
◌>>=◌ m f s = continue (m s).0 f (m s).1

abbrev pub ◌>>◌ : {S E A B : Type 0} → Exec S E A → Exec S E B → Exec S E B
m >> n = m >>= λ _. n

abbrev pub pure : {S E A : Type 0} → A → Exec S E A
pure a s = (ok a, s)

abbrev pub fail : {S E A : Type 0} → E → Exec S E A
fail e s = (err e, s)

-- A command that reads the store.
abbrev pub gets : {S E A : Type 0} → (S → Result E A) → Exec S E A
gets f s = (f s, s)

-- A command that writes the store.
abbrev pub modifies : {S E : Type 0} → (S → S) → Exec S E (Unit {0})
modifies f s = (ok tt, f s)

-- Where the first part succeeds the second one runs on the store that it left.
pub bind_ok :
    {S E A B : Type 0} (m : Exec S E A) (f : A → Exec S E B) (s : S) {a : A} {t : S}
    → m s ≡ (ok a, t)
    → (m >>= f) s ≡ f a t
bind_ok m f s e = rw (e, ◌>>=◌)

-- Where it fails its error is the answer, and the store stays as it left it.
pub bind_err :
    {S E A B : Type 0} (m : Exec S E A) (f : A → Exec S E B) (s : S) {e : E} {t : S}
    → m s ≡ (err e, t)
    → (m >>= f) s ≡ (err e, t)
bind_err m f s p = rw (p, ◌>>=◌)
