-- ===== src/Operations/UpdateAll/Frame.antt =====
-- What update_all leaves as it was.
use kafka_cad.Prelude.{
  ℕ, subst, ◌≡◌, refl, ◌∙◌, Bool, true, false, ◌||◌, Option, none, some, List, [], ◌∷◌, ◌++◌,
  string_eq, ◌==◌, Bool-cases, inl, inr, if◌then◌else◌,
}
use kafka_cad.Maps.{IndexMap, IndexMaps, lookup, change_entry, changed, lookup-change_entry}
use kafka_cad.Operations.Geom.{Floats}
use kafka_cad.Operations.References.{RefType, ObjId, RefId, Reference, RefResult}
use kafka_cad.Operations.Data.{Data}
use kafka_cad.Operations.UpdateAll.{get_ref_result, set_owner, update_reference, update_all}

-- Whether one of the references is of a part of the object.
abbrev pub owns : List Reference → ObjId → Bool
owns [] id = false
owns (refer ∷ refs) id = refer.owner.id == id || owns refs id

module _ {fl : Floats} (d : Data fl) (maps : IndexMaps (Option d.Obj)) where
  pub lookup-update_reference :
      (objs : IndexMap (Option d.Obj)) (refer : Reference) (id : ObjId)
      → (refer.owner.id == refer.other.id) ≡ false
      → lookup id (update_reference d maps objs refer) ≡ (
          if refer.owner.id == id
          then changed
              (set_owner d refer.owner (get_ref_result d maps objs refer.other))
              (lookup id objs)
          else lookup id objs)
  unfolding update_reference
  lookup-update_reference objs refer id t =
      let f = set_owner d refer.owner (get_ref_result d maps objs refer.other) in
      rw (t, update_reference, maps.get_mut_entry objs refer.owner.id f)
        (lookup-change_entry refer.owner.id id f objs)

  lookup-update_reference_other :
      (objs : IndexMap (Option d.Obj)) (refer : Reference) (id : ObjId)
      → (refer.owner.id == id) ≡ false
      → lookup id (update_reference d maps objs refer) ≡ lookup id objs
  unfolding update_reference
  lookup-update_reference_other objs refer id h =
      elim (Bool-cases (refer.owner.id == refer.other.id)) [
        | inl t ↦ rw (t, update_reference)
        | inr t ↦ lookup-update_reference objs refer id t ∙ rw h
      ]

  -- An object without references of its own stays as it is.
  pub lookup-update_all :
      (objs : IndexMap (Option d.Obj)) (refs : List Reference) (id : ObjId)
      → owns refs id ≡ false
      → lookup id (update_all d maps objs refs) ≡ lookup id objs
  unfolding update_all
  lookup-update_all objs [] id h = refl
  lookup-update_all objs (refer ∷ refs) id h = elim (Bool-cases (refer.owner.id == id)) [
    | inl t ↦ let q : ◌≡◌ {A = Bool} true false = rw t at h in cc q
    | inr t ↦
        lookup-update_all (update_reference d maps objs refer) refs id (rw t at h)
        ∙ lookup-update_reference_other objs refer id t
  ]

  pub update_all-append :
      (objs : IndexMap (Option d.Obj)) (refs refs' : List Reference)
      → update_all d maps objs (refs ++ refs')
        ≡ update_all d maps (update_all d maps objs refs) refs'
  unfolding update_all
  update_all-append objs [] refs' = refl
  update_all-append objs (refer ∷ refs) refs' =
      update_all-append (update_reference d maps objs refer) refs refs'

  -- An object is there as before, or deleted as before, and keeps its id.
  abbrev pub IsKept : Option d.Obj → Option d.Obj → Type 0
  IsKept none after = after ≡ none
  IsKept (some obj) after = (obj' : d.Obj) × (after ≡ some obj') × (d.get_id obj' ≡ d.get_id obj)

  -- The same keys in the same order, each with its object.
  abbrev pub AllKept : IndexMap (Option d.Obj) → IndexMap (Option d.Obj) → Type 0
  AllKept [] [] = Unit {0}
  AllKept [] (_ ∷ _) = ⊥
  AllKept (_ ∷ _) [] = ⊥
  AllKept ((k, o) ∷ m) ((k', o') ∷ m') = (k ≡ k') × IsKept o o' × AllKept m m'

  IsKept-refl : (a : Option d.Obj) → IsKept a a
  IsKept-refl none = refl
  IsKept-refl (some obj) = (obj, refl, refl)

  IsKept-trans : (a b c : Option d.Obj) → IsKept a b → IsKept b c → IsKept a c
  IsKept-trans none b c p k = subst (λ x. IsKept x c) p k
  IsKept-trans (some obj) b c (obj', p, q) k =
      let (last, r, same) = subst (λ x. IsKept x c) p k in (last, r, same ∙ q)

  AllKept-refl : (m : IndexMap (Option d.Obj)) → AllKept m m
  AllKept-refl [] = tt
  AllKept-refl ((k, o) ∷ m) = (refl, IsKept-refl o, AllKept-refl m)

  AllKept-trans : (m n l : IndexMap (Option d.Obj)) → AllKept m n → AllKept n l → AllKept m l
  AllKept-trans [] [] [] h k = tt
  AllKept-trans [] [] (_ ∷ _) h k = absurd k
  AllKept-trans [] (_ ∷ _) l h k = absurd h
  AllKept-trans (_ ∷ _) [] l h k = absurd h
  AllKept-trans (_ ∷ _) (_ ∷ _) [] h k = absurd k
  AllKept-trans ((a, x) ∷ m) ((b, y) ∷ n) ((c, z) ∷ l) (p, q, h) (p', q', h') =
      (p ∙ p', IsKept-trans x y z q q', AllKept-trans m n l h h')

  module _
      (keeps : (t : RefType) (index : ℕ) (r : Option (RefResult fl.F fl.Json)) (obj : d.Obj)
        → d.get_id (d.set_associated_result_for_type t index r obj) ≡ d.get_id obj) where
    set_owner-IsKept :
        (owner : RefId) (r : Option (RefResult fl.F fl.Json)) (a : Option d.Obj)
        → IsKept a (set_owner d owner r a)
    unfolding set_owner
    set_owner-IsKept owner r none = refl
    set_owner-IsKept owner r (some obj) = (_, refl, keeps owner.ref_type owner.index r obj)

    change_entry-AllKept :
        (owner : RefId) (r : Option (RefResult fl.F fl.Json)) (m : IndexMap (Option d.Obj))
        → AllKept m (change_entry owner.id (set_owner d owner r) m)
    change_entry-AllKept owner r [] = tt
    change_entry-AllKept owner r ((k, o) ∷ m) = elim (Bool-cases (k == owner.id)) [
      | inl t ↦ rw t (refl, set_owner-IsKept owner r o, AllKept-refl m)
      | inr t ↦ rw t (refl, IsKept-refl o, change_entry-AllKept owner r m)
    ]

    update_reference-AllKept :
        (objs : IndexMap (Option d.Obj)) (refer : Reference)
        → AllKept objs (update_reference d maps objs refer)
    unfolding update_reference
    update_reference-AllKept objs refer =
        let r = get_ref_result d maps objs refer.other in
        elim (Bool-cases (refer.owner.id == refer.other.id)) [
          | inl t ↦ rw (t, update_reference) (AllKept-refl objs)
          | inr t ↦
              rw
                (
                  t,
                  update_reference,
                  maps.get_mut_entry objs refer.owner.id (set_owner d refer.owner r),
                )
                (change_entry-AllKept refer.owner r objs)
        ]

    pub update_all-AllKept :
        (objs : IndexMap (Option d.Obj)) (refs : List Reference)
        → AllKept objs (update_all d maps objs refs)
    unfolding update_all
    update_all-AllKept objs [] = AllKept-refl objs
    update_all-AllKept objs (refer ∷ refs) =
        AllKept-trans objs (update_reference d maps objs refer) _
          (update_reference-AllKept objs refer)
          (update_all-AllKept (update_reference d maps objs refer) refs)
