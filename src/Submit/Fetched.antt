-- ===== src/Submit/Fetched.antt =====
-- What get_objects_to_update of submit/src/update.rs fetches from the object service.
use kafka_cad.Prelude.{
  String, ◌≡◌, refl, ap, ◌∙◌, sym, subst, Bool, true, false, ◌&&◌, ◌||◌, none, some, List, [], ◌∷◌,
  ◌++◌, map, Eq, string_eq, ==_refl, Eq-cases, Option-cases, inl, inr, arith, if◌then◌else◌,
}
use kafka_cad.Prelude.Int.{ℤ}
use kafka_cad.Prelude.Result.{ok, map_err}
use kafka_cad.State.{ChangeMsg, ObjectAtOffset}
use kafka_cad.Redis.{contains}
use kafka_cad.Objects.{Services, ObjError, GetObjectsInput, obj_cache, get_objects}
use kafka_cad.Objects.Keys.{IsPlainId}
use kafka_cad.Objects.History.{Commit, IsPlainLog, changes_object, latest, consume}
use kafka_cad.Objects.Requests.{ArePlain, version_of, get_objects-consume}
use kafka_cad.Submit.{Clients, with_user, get_objects_to_update}

abbrev pub request : ℤ → String → ObjectAtOffset
request offset obj_id = record { offset = offset; obj_id = obj_id }

-- The versions of the objects at the offset, with the user who submits, where there are some.
abbrev pub versions : String → ℤ → String → List Commit → List String → List ChangeMsg
versions file offset user log [] = []
versions file offset user log (id ∷ ids) = elim (latest offset file id log) [
  | none ↦ versions file offset user log ids
  | some change ↦ record change { user = user } ∷ versions file offset user log ids
]

with_user-versions :
    (file : String) (offset : ℤ) (user : String) (log : List Commit) (ids : List String)
    → with_user user (map (version_of file log) (map (request offset) ids))
      ≡ versions file offset user log ids
unfolding with_user
with_user-versions file offset user log [] = refl
with_user-versions file offset user log (id ∷ ids) =
    ap
      (λ l. elim (latest offset file id log) [
        | none ↦ l
        | some change ↦ record change { user = user } ∷ l
      ])
      (with_user-versions file offset user log ids)

plain_requests :
    (offset : ℤ) (ids : List String)
    → ((id : String) → contains ids id ≡ true → IsPlainId id)
    → ArePlain (map (request offset) ids)
plain_requests offset [] h = tt
plain_requests offset (id ∷ ids) h =
    (h id (rw (==_refl id)), plain_requests offset ids (λ j m. h j (ground (arith, m))))

-- With the object service after a log of plain ids into an empty cache of the file, the objects of
-- plain ids come back as their last changes at or below the offset, type and source unchanged and
-- the user replaced, in the order of the ids; objects with none are left out.
pub get_objects_to_update-consume :
    {Blob Status : Type 0} ⦃e : Eq Blob⦄ (s : Services Blob) (clients : Clients Status)
    (to_status : ObjError → Status) (log : List Commit) (kept : s.Db) (file : String) (offset : ℤ)
    (user : String) (ids : List String)
    → ((input : GetObjectsInput)
        → clients.get_objects input ≡ map_err to_status (get_objects s input (consume s log kept)))
    → IsPlainLog log
    → ((id : String) → contains ids id ≡ true → IsPlainId id)
    → ((id : String) → s.lrange kept (obj_cache file id) ≡ [])
    → get_objects_to_update clients file offset user ids ≡ ok (versions file offset user log ids)
unfolding get_objects_to_update
get_objects_to_update-consume s clients to_status log kept file offset user [] serves h k empty =
    refl
get_objects_to_update-consume s clients to_status log kept file offset user (id ∷ ids) serves h k
      empty =
    let input : GetObjectsInput = record {
      file = file;
      obj_ids = map (request offset) (id ∷ ids);
    } in
    rw
      (
        serves input,
        get_objects-consume s input log kept h (plain_requests offset (id ∷ ids) k) empty,
        get_objects_to_update,
      )
      (ap ok (with_user-versions file offset user log (id ∷ ids)))

-- Whether a change of the object is in a list.
abbrev pub has_change : String → List ChangeMsg → Bool
has_change id [] = false
has_change id (change ∷ changes) = changes_object id change || has_change id changes

pub has_change-append :
    (id : String) (xs ys : List ChangeMsg)
    → has_change id (xs ++ ys) ≡ (has_change id xs || has_change id ys)
has_change-append id [] ys = refl
has_change-append id (x ∷ xs) ys = rw (has_change-append id xs ys) (ground arith)

if-some :
    (b : Bool) (x y : ChangeMsg) → (if b then some x else none) ≡ some y → (b ≡ true) × (x ≡ y)
if-some true x y p = (refl, cc p)
if-some false x y p = cc p

and-middle : (a b c : Bool) → (a && b) && c ≡ true → b ≡ true
and-middle a b c p = ground arith

latest-changes_object :
    (offset : ℤ) (file id : String) (log : List Commit) (change : ChangeMsg)
    → latest offset file id log ≡ some change
    → changes_object id change ≡ true
latest-changes_object offset file id [] change p = cc p
latest-changes_object offset file id (c ∷ log) change p =
    elim (Option-cases (latest offset file id log)) [
      | inr (found, q) ↦ latest-changes_object offset file id log change (q ∙ rw q at p)
      | inl q ↦
          let (h, same) = if-some _ c.change change (rw q at p) in
          subst (λ d. changes_object id d ≡ true) same (and-middle _ _ _ h)
    ]

pub has_change-versions :
    (file : String) (offset : ℤ) (user : String) (log : List Commit) (ids : List String)
    (id : String) (change : ChangeMsg)
    → contains ids id ≡ true
    → latest offset file id log ≡ some change
    → has_change id (versions file offset user log ids) ≡ true
has_change-versions file offset user log [] id change h p = cc h
has_change-versions file offset user log (j ∷ ids) id change h p = elim (Eq-cases j id) [
  | inl (_, q) ↦
      let here = latest-changes_object offset file id log change p in
      let top : latest offset file j log ≡ some change =
        subst (λ k. latest offset file k log ≡ some change) (sym q) p in
      rw (top, has_change) (ground (arith, here))
  | inr (t, _) ↦
      let rest = has_change-versions file offset user log ids id change (rw t at h) p in
      elim (Option-cases (latest offset file j log)) [
        | inl none_ ↦ rw (none_, has_change) rest
        | inr (other, some_) ↦ rw (some_, has_change) (ground (arith, rest))
      ]
]
