-- ===== src/Undo/Names.antt =====
-- The keys of the stacks, and lists of event names.
use kafka_cad.Prelude.{
  String, ◌≡◌, ◌≢◌, refl, ap, subst, Bool, true, false, none, some, List, [], ◌∷◌, ◌++◌, map,
  get_last?, string_eq, nat_eq, ◌==◌, ne_of_beq, Bool-cases, inl, inr,
}
use kafka_cad.Prelude.Text.{NoColon, NoColon-colon, colon_cancel_left}
use kafka_cad.Redis.{remove_first}
use kafka_cad.Undo.{undo_stack, redo_stack}
use kafka_cad.Undo.Spec.{Side, undo_side, redo_side}

abbrev pub AreNames : List String → Type 0
AreNames [] = Unit {0}
AreNames (name ∷ names) = NoColon name × AreNames names

abbrev pub stack_key : String → String → Side → String
stack_key file user undo_side = undo_stack file user
stack_key file user redo_side = redo_stack file user

abbrev pub is_same : Side → Side → Bool
is_same undo_side undo_side = true
is_same redo_side redo_side = true
is_same undo_side redo_side = false
is_same redo_side undo_side = false

pub stack_key-ne-event :
    (file user event : String) (side : Side) → NoColon event → event ≢ stack_key file user side
unfolding undo_stack redo_stack
stack_key-ne-event file user event undo_side h p = NoColon-colon _ _ (subst NoColon p h)
stack_key-ne-event file user event redo_side h p = NoColon-colon _ _ (subst NoColon p h)

undo_differs : ◌≢◌ {A = String} "undo" "redo"
undo_differs p = ne_of_beq "undo" "redo" refl p

pub undo_stack-ne-redo_stack : (file user : String) → undo_stack file user ≢ redo_stack file user
unfolding undo_stack redo_stack
undo_stack-ne-redo_stack file user p =
    undo_differs (colon_cancel_left user _ _ (colon_cancel_left file _ _ p))

pub get_last?-map {ℓ κ} :
    {A : Type ℓ} {B : Type κ} (f : A → B) (xs : List A)
    → get_last? (map f xs) ≡ (elim (get_last? xs) [ none ↦ none | some x ↦ some (f x) ])
get_last?-map f [] = refl
get_last?-map f (x ∷ []) = refl
get_last?-map f (x ∷ y ∷ xs) = get_last?-map f (y ∷ xs)

pub map-concat {ℓ κ} :
    {A : Type ℓ} {B : Type κ} (f : A → B) (xs : List A) (y : A)
    → map f (xs ++ y ∷ []) ≡ map f xs ++ f y ∷ []
map-concat f [] y = refl
map-concat f (x ∷ xs) y = ap (◌∷◌ (f x)) (map-concat f xs y)

pub AreNames-last :
    (names : List String) (name : String)
    → AreNames names
    → get_last? names ≡ some name
    → NoColon name
AreNames-last [] name h p = cc p
AreNames-last (x ∷ []) name h p = let q : x ≡ name = cc p in subst NoColon q h.0
AreNames-last (x ∷ y ∷ names) name h p = AreNames-last (y ∷ names) name h.1 p

pub AreNames-remove_first :
    (name : String) (names : List String) → AreNames names → AreNames (remove_first name names)
AreNames-remove_first name [] h = h
AreNames-remove_first name (x ∷ names) (h, hs) = elim (Bool-cases (x == name)) [
  | inl t ↦ rw t hs
  | inr t ↦ rw t (h, AreNames-remove_first name names hs)
]
