-- ===== src/Examples/Blobs.antt =====
-- The byte strings of the example server, kept apart by what they encode.
use native.Mathlib.Decide.{ℕ_discrete}
use text.Mathlib.Text.{◌==◌ as str_eq}
use text.Mathlib.TextEquality.{eq_iff}
use kafka_cad.Prelude.{String, ◌≡◌, refl, ◌↔◌, Bool, true, false, none, some, Eq}
use kafka_cad.Prelude.Int.{ℤ}
use kafka_cad.State.{ChangeMsg, DependenciesMsg}
use kafka_cad.Redis.{Codec}
use kafka_cad.Undo.{UndoEntry}
use kafka_cad.RepCache.{UpdateChangeMsg}
use kafka_cad.Dependencies.{Subscribers, ObjRefs}

String_discrete : Discrete String
String_discrete s t = go (str_eq s t) (eq_iff s t)
  where
    go : (b : Bool) → (b ≡ true) ↔ (s ≡ t) → Dec (s ≡ t)
    go true h = yes (h.0 refl)
    go false h = no (λ p. cc (h.1 p))

pub data Blob : Type 0 where
  name : String → Blob
  number : ℤ → Blob
  change : ChangeMsg → Blob
  version : ℤ → Blob → Blob
  entry : UndoEntry → Blob
  subscribed : Subscribers → Blob
  stored : ℤ → Blob → Blob
  listed : DependenciesMsg → Blob
  drawn : UpdateChangeMsg String → Blob
  garbage : Blob

Blob-discrete : Discrete Blob
Blob-discrete = hlevel (ℕ_discrete, String_discrete)

test {ℓ} : {A : Type ℓ} → Dec A → Bool
test (yes _) = true
test (no _) = false

test_iff {ℓ} : {A : Type ℓ} (d : Dec A) → (test d ≡ true) ↔ A
unfolding test
test_iff (yes a) = (λ _. a, λ _. refl)
test_iff (no n) = (λ p. cc p, λ a. absurd (n a))

instance pub blob_eq : Eq Blob
blob_eq = record {
  beq = λ a b. test (Blob-discrete a b);
  beq_iff = λ a b. test_iff (Blob-discrete a b);
}

abbrev pub texts : Codec Blob String
texts = record {
  encode = name;
  decode = λ b. elim b [ name t ↦ some t | _ ↦ none ];
  decode-encode = λ t. refl;
}

abbrev pub numbers : Codec Blob ℤ
numbers = record {
  encode = number;
  decode = λ b. elim b [ number z ↦ some z | _ ↦ none ];
  decode-encode = λ z. refl;
}

abbrev pub changes : Codec Blob ChangeMsg
changes = record {
  encode = change;
  decode = λ b. elim b [ change c ↦ some c | _ ↦ none ];
  decode-encode = λ c. refl;
}

abbrev pub entries : Codec Blob UndoEntry
entries = record {
  encode = entry;
  decode = λ b. elim b [ entry u ↦ some u | _ ↦ none ];
  decode-encode = λ u. refl;
}

abbrev pub subscribers : Codec Blob Subscribers
subscribers = record {
  encode = subscribed;
  decode = λ b. elim b [ subscribed u ↦ some u | _ ↦ none ];
  decode-encode = λ u. refl;
}

abbrev pub obj_refs_codec : Codec Blob (ObjRefs Blob)
obj_refs_codec = record {
  encode = λ r. stored r.offset r.serialized_refs;
  decode = λ b. elim b [
    | stored z refs ↦ some (record { offset = z; serialized_refs = refs })
    | _ ↦ none
  ];
  decode-encode = λ r. refl;
}

abbrev pub deps : Codec Blob DependenciesMsg
deps = record {
  encode = listed;
  decode = λ b. elim b [ listed u ↦ some u | _ ↦ none ];
  decode-encode = λ u. refl;
}

abbrev pub reps : Codec Blob (UpdateChangeMsg String)
reps = record {
  encode = drawn;
  decode = λ b. elim b [ drawn u ↦ some u | _ ↦ none ];
  decode-encode = λ u. refl;
}
