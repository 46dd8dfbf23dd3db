-- ===== src/Maps.antt =====
-- IndexMap of the package indexmap, as submit/src/update.rs and the operations use it: a map from
-- ids that is walked in the order of insertion. A map is the list of its entries in that order.
use kafka_cad.Prelude.{
  ℕ, String, ◌≡◌, Bool, true, false, Option, none, some, List, [], ◌∷◌, map, get_elem?, string_eq,
  ◌==◌, if◌then◌else◌, sym, ◌∙◌, Bool-cases, Eq-cases, inl, inr,
}

abbrev pub IndexMap : Type 0 → Type 0
IndexMap V = List (String × V)

module _ {V : Type 0} where
  -- Where the key is there it keeps its place, else it comes last.
  abbrev pub put_entry : String → V → IndexMap V → IndexMap V
  put_entry k v [] = (k, v) ∷ []
  put_entry k v ((key, w) ∷ m) = if key == k then (key, v) ∷ m else (key, w) ∷ put_entry k v m

  abbrev pub lookup : String → IndexMap V → Option V
  lookup k [] = none
  lookup k ((key, v) ∷ m) = if key == k then some v else lookup k m

  abbrev pub has_key : IndexMap V → String → Bool
  has_key m k = elim (lookup k m) [ none ↦ false | some _ ↦ true ]

  abbrev pub entry_values : IndexMap V → List V
  entry_values m = map (λ entry. entry.1) m

  abbrev pub change_entry : String → (V → V) → IndexMap V → IndexMap V
  change_entry k f [] = []
  change_entry k f ((key, v) ∷ m) =
      if key == k then (key, f v) ∷ m else (key, v) ∷ change_entry k f m

abbrev pub changed : {V : Type 0} → (V → V) → Option V → Option V
changed f none = none
changed f (some v) = some (f v)

pub lookup-change_entry :
    {V : Type 0} (k j : String) (f : V → V) (m : IndexMap V)
    → lookup j (change_entry k f m) ≡ (if k == j then changed f (lookup j m) else lookup j m)
lookup-change_entry k j f [] = elim (Bool-cases (k == j)) [ inl t ↦ rw t | inr t ↦ rw t ]
lookup-change_entry k j f ((key, v) ∷ m) = elim (Eq-cases key k) [
  | inl (t, p) ↦ rw t (elim (Eq-cases key j) [
    | inl (u, q) ↦ let same : (k == j) ≡ true = rw (← p) u in rw (u, same)
    | inr (u, _) ↦ let other : (k == j) ≡ false = rw (← p) u in rw (u, other)
  ])
  | inr (t, n) ↦ rw t (elim (Eq-cases key j) [
    | inl (u, q) ↦
        rw u (elim (Eq-cases k j) [ inl (_, p) ↦ absurd (n (q ∙ sym p)) | inr (w, _) ↦ rw w ])
    | inr (u, _) ↦ rw u (lookup-change_entry k j f m)
  ])
]

-- get_mut has what is done to the value as a function.
pub record IndexMaps (V : Type 0) : Type 0 where
  pub insert : String → V → IndexMap V → IndexMap V
  pub contains_key : IndexMap V → String → Bool
  pub values : IndexMap V → List V
  pub get : IndexMap V → String → Option V
  pub get_index : IndexMap V → ℕ → Option (String × V)
  pub get_mut : IndexMap V → String → (V → V) → IndexMap V
  pub insert_order : (k : String) (v : V) (m : IndexMap V) → insert k v m ≡ put_entry k v m
  pub contains_key_entry : (m : IndexMap V) (k : String) → contains_key m k ≡ has_key m k
  pub values_order : (m : IndexMap V) → values m ≡ entry_values m
  pub get_entry : (m : IndexMap V) (k : String) → get m k ≡ lookup k m
  pub get_index_order : (m : IndexMap V) (i : ℕ) → get_index m i ≡ get_elem? m i
  pub get_mut_entry : (m : IndexMap V) (k : String) (f : V → V) → get_mut m k f ≡ change_entry k f m
