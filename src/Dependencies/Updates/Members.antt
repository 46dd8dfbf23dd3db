-- ===== src/Dependencies/Updates/Members.antt =====
-- Who is subscribed after a change, told without the edits of dependencies/src/cache.rs: place by
-- place, from the references that the change has and those that were stored.
use mathlib.Core.Bool.{◌&&◌, ◌||◌}
use kafka_cad.Prelude.{
  String, ◌≡◌, refl, sym, ap, subst, ◌∙◌, Bool, true, false, Bool-cases, Option, none, some, List,
  [], ◌∷◌, map, Eq, string_eq, nat_eq, int_eq, ◌==◌, inl, inr, if◌then◌else◌,
}
use kafka_cad.Prelude.Int.{ℤ, leb_ℤ}
use kafka_cad.Prelude.Result.{Result, ok}
use kafka_cad.State.{RefIdMsg, ReferenceMsg, DependenciesMsg, ChangeMsg, type_id}
use kafka_cad.Redis.{contains}
use kafka_cad.Dependencies.{
  DepError, Services, DepChange, added, modified, deleted, change_of, get_ref_id_subs, get_obj_refs,
}
use kafka_cad.Dependencies.Refs.{RefId, ref_id_eq, from_msg}
use kafka_cad.Dependencies.Updates.{update_deps_inner}
use kafka_cad.Dependencies.Updates.Pending.{pending_one, pending}
use kafka_cad.Dependencies.Updates.Lookups.{
  Stored, stored_by, stored_after, Edited, update_deps_inner-Edited,
}
use kafka_cad.Dependencies.Updates.Writes.{reading}
use kafka_cad.Dependencies.Updates.Places.{Place, places_of, change_at, edits_of-places}
use kafka_cad.Dependencies.Updates.Edits.{subscribes, contains-edit}

abbrev is_id : RefIdMsg → RefId → Bool
is_id msg r = msg.id == r.id && msg.ref_type == r.ref_type && msg.index == r.index

-- Whether a reference with both ends leads to `r`, and whether it leads from `o` to `r`.
abbrev pub leads_to : ReferenceMsg → RefId → Bool
leads_to refer r = elim refer.owner [
  | none ↦ false
  | some owner ↦ elim refer.other [ none ↦ false | some other ↦ is_id other r ]
]

abbrev pub links : ReferenceMsg → RefId → RefId → Bool
links refer o r = elim refer.owner [
  | none ↦ false
  | some owner ↦ elim refer.other [ none ↦ false | some other ↦ is_id other r && is_id owner o ]
]

-- Whether `o` is subscribed to `r` after the places, where it `was` or was not before: a reference
-- that the change has subscribes it, a stored one in whose place the change has none ends that.
abbrev pub subscribed : List Place → RefId → RefId → Bool → Bool
subscribed [] o r was = was
subscribed ((some new, _) ∷ ps) o r was = subscribed ps o r (if links new o r then true else was)
subscribed ((none, some old) ∷ ps) o r was =
    subscribed ps o r (if links old o r then false else was)
subscribed ((none, none) ∷ ps) o r was = subscribed ps o r was

-- Whether the places have a reference to `r`; a stored one counts where the change has none.
abbrev pub touched : List Place → RefId → Bool
touched [] r = false
touched ((some new, _) ∷ ps) r = leads_to new r || touched ps r
touched ((none, some old) ∷ ps) r = leads_to old r || touched ps r
touched ((none, none) ∷ ps) r = touched ps r

-- The set that is there after some edits.
abbrev current : List RefId → Option (List RefId) → List RefId
current old given = elim given [ none ↦ old | some set ↦ set ]

-- One reference: where it leads to `r`, its owner is edited.
abbrev EditsOne :
    Option RefIdMsg
    → Option RefIdMsg
    → DepChange
    → RefId
    → List RefId
    → Option (List RefId)
    → Type 0
EditsOne owner other t r old given =
    let refer : ReferenceMsg = record { owner = owner; other = other } in
    let after = pending_one owner other t r old given in
    (after ≡ (if leads_to refer r then some (current old after) else given))
    × ((o : RefId)
        → contains (current old after) o
          ≡ (if links refer o r then subscribes t else contains (current old given) o))

pending_one-EditsOne :
    (owner other : Option RefIdMsg) (t : DepChange) (r : RefId) (old : List RefId)
    (given : Option (List RefId))
    → EditsOne owner other t r old given
unfolding from_msg
pending_one-EditsOne none other t r old given = (refl, λ o. refl)
pending_one-EditsOne (some owner) none t r old given = (refl, λ o. refl)
pending_one-EditsOne (some owner) (some other) t r old given = elim (Bool-cases (is_id other r)) [
  | inl u ↦ (rw u, λ o. rw u (contains-edit t (from_msg owner) o (current old given)))
  | inr u ↦ (rw u, λ o. rw u)
]

-- After one reference and then the rest.
then_rest :
    (old : List RefId) (a b : Bool) (given one all : Option (List RefId))
    → one ≡ (if a then some (current old one) else given)
    → all ≡ (if b then some (current old all) else one)
    → all ≡ (if a || b then some (current old all) else given)
then_rest old true true given one all p q = q
then_rest old false true given one all p q = q
then_rest old true false given one all p q = subst (λ o. o ≡ some (current old o)) (sym q) p
then_rest old false false given one all p q = q ∙ p

abbrev Tells : List Place → RefId → List RefId → Option (List RefId) → Type 0
Tells ps r old given =
    let after = pending (map change_at ps) r old given in
    (after ≡ (if touched ps r then some (current old after) else given))
    × ((o : RefId)
        → contains (current old after) o ≡ subscribed ps o r (contains (current old given) o))

tells :
    (ps : List Place) (r : RefId) (old : List RefId) (given : Option (List RefId))
    → Tells ps r old given
unfolding change_of
tells [] r old given = (refl, λ o. refl)
tells ((none, none) ∷ ps) r old given = tells ps r old given
tells ((none, some refer) ∷ ps) r old given =
    let one = pending_one refer.owner refer.other deleted r old given in
    let (p, m) = pending_one-EditsOne refer.owner refer.other deleted r old given in
    let (q, n) = tells ps r old one in
    (
      then_rest old (leads_to refer r) (touched ps r) given one _ p q,
      λ o. n o ∙ ap (subscribed ps o r) (m o),
    )
tells ((some refer, none) ∷ ps) r old given =
    let one = pending_one refer.owner refer.other added r old given in
    let (p, m) = pending_one-EditsOne refer.owner refer.other added r old given in
    let (q, n) = tells ps r old one in
    (
      then_rest old (leads_to refer r) (touched ps r) given one _ p q,
      λ o. n o ∙ ap (subscribed ps o r) (m o),
    )
tells ((some refer, some _) ∷ ps) r old given =
    let one = pending_one refer.owner refer.other modified r old given in
    let (p, m) = pending_one-EditsOne refer.owner refer.other modified r old given in
    let (q, n) = tells ps r old one in
    (
      then_rest old (leads_to refer r) (touched ps r) given one _ p q,
      λ o. n o ∙ ap (subscribed ps o r) (m o),
    )

module _ {Blob : Type 0} ⦃e : Eq Blob⦄ (s : Services Blob) (file : String) (offset : ℤ) (db : s.Db)
    (old : RefId → List RefId) (stored : String → Stored) where
  -- The handler succeeds; each reference reads, from the offset of the change on and where the
  -- places have a reference to it, a set of exactly those that are subscribed after the places, and
  -- else what it read before; each object's stored references are those told.
  pub record Updated (run : Result DepError (Unit {0}) × s.Db) (ps : List Place)
      (told : Option (String × DependenciesMsg)) : Type 0 where
    pub succeeds : run.0 ≡ ok tt
    pub lookups :
        (r : RefId) (at : ℤ)
        → (set : List RefId) × (get_ref_id_subs s file r at run.1
            ≡ (if leb_ℤ offset at && touched ps r then ok set else get_ref_id_subs s file r at db))
          × ((o : RefId) → contains set o ≡ subscribed ps o r (contains (old r) o))
    pub refs :
        (id : String) → get_obj_refs s file id run.1 ≡ ok (stored_after offset told id (stored id))

  reading_if :
      (b : Bool) (set : List RefId) (at : ℤ) (before : Result DepError (List RefId))
      → reading s file offset (if b then some set else none) at before
        ≡ (if leb_ℤ offset at && b then ok set else before)
  reading_if true set at before = elim (Bool-cases (leb_ℤ offset at)) [
    | inl t ↦ rw t
    | inr t ↦ rw t
  ]
  reading_if false set at before = elim (Bool-cases (leb_ℤ offset at)) [
    | inl t ↦ rw t
    | inr t ↦ rw t
  ]

  Edited-Updated :
      (run : Result DepError (Unit {0}) × s.Db) (ps : List Place)
      (told : Option (String × DependenciesMsg))
      → Edited s file offset db old stored run (map change_at ps) told
      → Updated run ps told
  Edited-Updated run ps told h = record {
    succeeds = h.succeeds;
    lookups = λ r at.
        let set = current (old r) (pending (map change_at ps) r (old r) none) in
        let (p, m) = tells ps r (old r) none in
        (
          set,
          h.lookups r at
              ∙ ap (λ o. reading s file offset o at (get_ref_id_subs s file r at db)) p
              ∙ reading_if (touched ps r) set at _,
          m,
        );
    refs = h.refs;
  }

-- Where every set of subscribers and every object's stored references can be read, handling a
-- change succeeds. Place by place, the change has a reference or none (none after a delete), and one
-- is stored or none (which an add does not look at). At every offset from the one of the change on,
-- a reference to which the places lead has as its subscribers exactly those that it had, with the
-- owners of the change's references to it, and without the owners of the stored references to it in
-- whose place the change has none; where several places are about one owner, the last one counts.
-- At lower offsets, and where no place leads to it, it reads what it read before. The object of the
-- change has the change's references stored, after a delete as many places without a reference, and
-- the other objects have theirs.
pub update_deps_inner-Updated :
    {Blob : Type 0} ⦃e : Eq Blob⦄ (s : Services Blob) (file : String) (offset : ℤ) (db : s.Db)
    (old : RefId → List RefId) (stored : String → Stored)
    → ((r : RefId) → get_ref_id_subs s file r offset db ≡ ok (old r))
    → ((id : String) → get_obj_refs s file id db ≡ ok (stored id))
    → (change : ChangeMsg)
    → Updated s file offset db old stored
        (update_deps_inner s file offset change db)
        (places_of change.change_type stored)
        (elim change.change_type [ none ↦ none | some t ↦ stored_by t (stored (type_id t)) ])
update_deps_inner-Updated s file offset db old stored reads reads_refs change =
    Edited-Updated s file offset db old stored _ _ _ (
      subst
        (λ diffs.
          Edited s file offset db old stored (update_deps_inner s file offset change db) diffs
            (elim change.change_type [ none ↦ none | some t ↦ stored_by t (stored (type_id t)) ]))
        (edits_of-places change.change_type stored)
        (update_deps_inner-Edited s file offset db old stored reads reads_refs change))
