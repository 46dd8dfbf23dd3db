-- ===== src/Dependencies/Updates/Edits.antt =====
-- What an edit of dependencies/src/cache.rs makes of a set of subscribers.
use mathlib.Core.Bool.{◌||◌}
use kafka_cad.Prelude.{
  ◌≡◌, sym, ap, subst, ◌∙◌, Bool, true, false, Bool-cases, Eq-cases, List, [], ◌∷◌, string_eq,
  nat_eq, int_eq, ◌==◌, inl, inr, ◌⊎◌, arith, if◌then◌else◌,
}
use kafka_cad.Redis.{contains}
use kafka_cad.Dependencies.{DepChange, added, modified, deleted, edit, insert, remove}
use kafka_cad.Dependencies.Refs.{RefId, ref_id_eq}

abbrev pub subscribes : DepChange → Bool
subscribes added = true
subscribes modified = true
subscribes deleted = false

or-if : (a b : Bool) → (a || b) ≡ (if a then true else b)
or-if a b = ground arith

same-if : (a : Bool) → false ≡ (if a then false else false)
same-if a = ground arith

contains-insert :
    (a o : RefId) (set : List RefId)
    → contains (insert a set) o ≡ (if a == o then true else contains set o)
contains-insert a o set = elim (Bool-cases (contains set a)) [
  | inr t ↦ rw t (or-if (a == o) (contains set o))
  | inl t ↦ rw t (elim (Eq-cases a o) [
    | inl (u, p) ↦ rw u (subst (λ x. contains set x ≡ true) p t)
    | inr (u, _) ↦ rw u
  ])
]

-- An element that is removed, and one that is left, before the rest.
drops : (a x r c : Bool) → x ≡ a → r ≡ (if a then false else c) → r ≡ (if a then false else x || c)
drops a x r c p q = ground (arith, p, q)

keeps :
    (a x r c : Bool)
    → (a ≡ false) ⊎ (x ≡ false)
    → r ≡ (if a then false else c)
    → (x || r) ≡ (if a then false else x || c)
keeps a x r c p q = ground (arith, p, q)

contains-remove :
    (a o : RefId) (set : List RefId)
    → contains (remove a set) o ≡ (if a == o then false else contains set o)
contains-remove a o [] = same-if (a == o)
contains-remove a o (x ∷ set) =
    let rest = contains-remove a o set in
    elim (Eq-cases x a) [
      | inl (t, p) ↦ rw t (drops (a == o) (x == o) _ (contains set o) (ap (λ y. y == o) p) rest)
      | inr (t, n) ↦ rw t (
          keeps (a == o) (x == o) _ (contains set o)
            (elim (Eq-cases x o) [
              | inl (_, p) ↦ elim (Eq-cases a o) [
                | inl (_, q) ↦ absurd (n (p ∙ sym q))
                | inr (u, _) ↦ inl u
              ]
              | inr (u, _) ↦ inr u
            ])
            rest)
    ]

pub contains-edit :
    (t : DepChange) (a o : RefId) (set : List RefId)
    → contains (edit t a set) o ≡ (if a == o then subscribes t else contains set o)
unfolding edit
contains-edit added a o set = contains-insert a o set
contains-edit modified a o set = contains-insert a o set
contains-edit deleted a o set = contains-remove a o set
