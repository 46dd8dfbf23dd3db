-- ===== src/Submit/Server/Newest.antt =====
-- The last version of an object in a log that a submission continues.
use kafka_cad.Prelude.{
  String, ◌≡◌, refl, sym, ap, ◌∙◌, true, ◌&&◌, Option, none, some, List, [], ◌∷◌, ◌++◌, string_eq,
  ◌==◌, ==_refl, Bool-cases, Option-cases, inl, inr, arith, if◌then◌else◌,
}
use kafka_cad.Prelude.Int.{ℤ, leb_ℤ}
use kafka_cad.State.{ChangeType, ChangeSource, ChangeMsg, type_id}
use kafka_cad.Objects.History.{Commit, IsPlainLog, is_version, latest}
use kafka_cad.Submit.Sets.{last_change}

-- The commits that changes are at some offsets.
abbrev pub commits : String → List ChangeMsg → List ℤ → List Commit
commits file [] offsets = []
commits file (change ∷ changes) [] = []
commits file (change ∷ changes) (offset ∷ offsets) =
    record { file = file; offset = offset; change = change } ∷ commits file changes offsets

abbrev pub AreAtMost : ℤ → List ℤ → Type 0
AreAtMost top [] = Unit {0}
AreAtMost top (offset ∷ offsets) = (leb_ℤ offset top ≡ true) × AreAtMost top offsets

pub leb_ℤ_trans : (a b c : ℤ) → leb_ℤ a b ≡ true → leb_ℤ b c ≡ true → leb_ℤ a c ≡ true
leb_ℤ_trans a b c p q = ground arith

abbrev pub or_else : Option ChangeMsg → Option ChangeMsg → Option ChangeMsg
or_else (some change) given = some change
or_else none given = given

or_else-some :
    (o : Option ChangeMsg) (change : ChangeMsg) (given : Option ChangeMsg)
    → or_else (or_else o (some change)) given ≡ or_else o (some change)
or_else-some none change given = refl
or_else-some (some _) change given = refl

abbrev pub version_at : ℤ → String → String → Commit → Option ChangeMsg
version_at offset file id c =
    if is_version file id c && leb_ℤ c.offset offset then some c.change else none

or_else_assoc : (a b c : Option ChangeMsg) → or_else (or_else a b) c ≡ or_else a (or_else b c)
or_else_assoc none b c = refl
or_else_assoc (some _) b c = refl

pub latest-or_else :
    (offset : ℤ) (file id : String) (c : Commit) (log : List Commit)
    → latest offset file id (c ∷ log)
      ≡ or_else (latest offset file id log) (version_at offset file id c)
latest-or_else offset file id c log = elim (Option-cases (latest offset file id log)) [
  | inl p ↦ rw p refl
  | inr (change, p) ↦ rw p refl
]

pub latest-append :
    (offset : ℤ) (file id : String) (log more : List Commit)
    → latest offset file id (log ++ more)
      ≡ or_else (latest offset file id more) (latest offset file id log)
latest-append offset file id [] more = elim (Option-cases (latest offset file id more)) [
  | inl p ↦ rw p refl
  | inr (change, p) ↦ rw p refl
]
latest-append offset file id (c ∷ log) more =
    latest-or_else offset file id c (log ++ more)
    ∙ ap (λ o. or_else o (version_at offset file id c)) (latest-append offset file id log more)
    ∙ or_else_assoc (latest offset file id more) (latest offset file id log)
        (version_at offset file id c)
    ∙ ap (or_else (latest offset file id more)) (sym (latest-or_else offset file id c log))

pub IsPlainLog-append :
    (log more : List Commit) → IsPlainLog log → IsPlainLog more → IsPlainLog (log ++ more)
IsPlainLog-append [] more h k = k
IsPlainLog-append (c ∷ log) more (h, hs) k = (h, IsPlainLog-append log more hs k)

-- What last_change goes on with.
abbrev pub given_or : String → ChangeMsg → Option ChangeType → Option ChangeMsg → Option ChangeMsg
given_or id change o given = elim o [
  | none ↦ given
  | some t ↦ if type_id t == id then some change else given
]

last_change-step :
    (id : String) (change : ChangeMsg) (o : Option ChangeType) (changes : List ChangeMsg)
    (given : Option ChangeMsg)
    → ((o' : Option ChangeMsg)
        → last_change id changes o' ≡ or_else (last_change id changes none) o')
    → last_change id changes (given_or id change o given)
      ≡ or_else (last_change id changes (given_or id change o none)) given
last_change-step id change none changes given rest = rest given
last_change-step id change (some t) changes given rest = elim (Bool-cases (type_id t == id)) [
  | inl u ↦ rw u (
      rest (some change)
      ∙ sym (or_else-some (last_change id changes none) change given)
      ∙ ap (λ o. or_else o given) (sym (rest (some change))))
  | inr u ↦ rw u (rest given)
]

-- The last change is that of the rest, or the one before.
pub last_change-given :
    (id : String) (changes : List ChangeMsg) (given : Option ChangeMsg)
    → last_change id changes given ≡ or_else (last_change id changes none) given
last_change-given id [] none = refl
last_change-given id [] (some _) = refl
last_change-given id (change ∷ changes) given =
    last_change-step id change change.change_type changes given (last_change-given id changes)

pub given_or-version_at :
    (top : ℤ) (file id user : String) (offset : ℤ) (o : Option ChangeType)
    (source : Option ChangeSource)
    → leb_ℤ offset top ≡ true
    → (let change : ChangeMsg = record { user = user; change_type = o; change_source = source } in
        version_at top file id (record { file = file; offset = offset; change = change })
        ≡ given_or id change o none)
given_or-version_at top file id user offset none source h = rw (==_refl file) refl
given_or-version_at top file id user offset (some t) source h =
    elim (Bool-cases (type_id t == id)) [
      | inl u ↦ rw (==_refl file, h, u) refl
      | inr u ↦ rw (==_refl file, h, u) refl
    ]
