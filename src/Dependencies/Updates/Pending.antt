-- ===== src/Dependencies/Updates/Pending.antt =====
-- What the loops over populate_changed_subs gather: for each reference, its new set of subscribers.
use kafka_cad.Prelude.{
  String, ◌≡◌, refl, sym, subst, ap, ◌∙◌, Bool, true, false, Option, none, some, List, [], ◌∷◌, Eq,
  ◌==◌, Eq-cases, inl, inr, Option-cases, if◌then◌else◌,
}
use kafka_cad.Prelude.Int.{ℤ}
use kafka_cad.Prelude.Result.{Result, ok}
use kafka_cad.State.{ReferenceMsg, RefIdMsg}
use kafka_cad.Dependencies.{
  DepError, Services, DepChange, Changed, find, store, edit, get_ref_id_subs,
}
use kafka_cad.Dependencies.Refs.{RefId, ref_id_eq, from_msg}
use kafka_cad.Dependencies.Updates.{populate_ends, populate_changed_subs, populate_all}

-- The set of one reference after the edits, where one of them is about it; `given` is what earlier
-- edits made of it, `old` what it was.
abbrev pub edited :
    RefId → DepChange → RefId → RefId → List RefId → Option (List RefId) → Option (List RefId)
edited owner t other r old given =
    if other == r then some (edit t owner (elim given [ none ↦ old | some subs ↦ subs ])) else given

abbrev pub pending_one :
    Option RefIdMsg
    → Option RefIdMsg
    → DepChange
    → RefId
    → List RefId
    → Option (List RefId)
    → Option (List RefId)
pending_one (some owner) (some other) t r old given =
    edited (from_msg owner) t (from_msg other) r old given
pending_one _ _ t r old given = given

abbrev pub pending :
    List (Option (ReferenceMsg × DepChange))
    → RefId
    → List RefId
    → Option (List RefId)
    → Option (List RefId)
pending [] r old given = given
pending (none ∷ diffs) r old given = pending diffs r old given
pending (some (refer, t) ∷ diffs) r old given =
    pending diffs r old (pending_one refer.owner refer.other t r old given)

-- No reference is a key twice.
abbrev pub IsDistinct : Changed → Type 0
IsDistinct [] = Unit {0}
IsDistinct ((k, v) ∷ m) = (find k m ≡ none) × IsDistinct m

pub find-store :
    (k r : RefId) (v : List RefId) (m : Changed)
    → find r (store k v m) ≡ (if k == r then some v else find r m)
find-store k r v [] = refl
find-store k r v ((key, w) ∷ m) = elim (Eq-cases key k) [
  | inl (t, p) ↦ rw t (rw p (skip (k == r)))
  | inr (t, n) ↦ rw t (elim (Eq-cases key r) [
    | inl (t', q) ↦
        rw t' (elim (Eq-cases k r) [ inl (_, p) ↦ absurd (n (q ∙ sym p)) | inr (t'', _) ↦ rw t'' ])
    | inr (t', _) ↦ rw t' (find-store k r v m)
  ])
]
  where
    skip :
        (b : Bool)
        → (if b then some v else find r m)
          ≡ (if b then some v else (if b then some w else find r m))
    skip true = refl
    skip false = refl

pub store-IsDistinct :
    (k : RefId) (v : List RefId) (m : Changed) → IsDistinct m → IsDistinct (store k v m)
store-IsDistinct k v [] h = (refl, tt)
store-IsDistinct k v ((key, w) ∷ m) (h, hs) = elim (Eq-cases key k) [
  | inl (t, p) ↦ rw t (h, hs)
  | inr (t, n) ↦ rw t (
    find-store k key v m
        ∙ elim (Eq-cases k key) [ inl (_, p) ↦ absurd (n (sym p)) | inr (t', _) ↦ rw t' h ],
    store-IsDistinct k v m hs,
  )
]

-- Every set can be read.
module _ {Blob : Type 0} ⦃e : Eq Blob⦄ (s : Services Blob) (file : String) (offset : ℤ) (db : s.Db)
    (old : RefId → List RefId)
    (reads : (r : RefId) → get_ref_id_subs s file r offset db ≡ ok (old r)) where
  -- The outcome of a loop: it succeeds, and each reference has the set that is told for it.
  abbrev pub Gathers : Result DepError Changed → (RefId → Option (List RefId)) → Type 0
  Gathers run told = (m : Changed) × (run ≡ ok m) × IsDistinct m × ((r : RefId) → find r m ≡ told r)

  stored :
      (owner other : RefId) (t : DepChange) (m : Changed) (v : List RefId)
      → v ≡ (elim (find other m) [ none ↦ old other | some subs ↦ subs ])
      → (r : RefId)
      → find r (store other (edit t owner v) m) ≡ edited owner t other r (old r) (find r m)
  stored owner other t m v p r = find-store other r _ m ∙ elim (Eq-cases other r) [
    | inr (u, _) ↦ rw u
    | inl (u, q) ↦ rw u (
        subst
          (λ j.
            some (edit t owner v)
            ≡ some (edit t owner (elim (find j m) [ none ↦ old j | some subs ↦ subs ])))
          q (ap (λ l. some (edit t owner l)) p))
  ]

  populate_ends-Gathers :
      (owner other : RefId) (t : DepChange) (m : Changed)
      → IsDistinct m
      → Gathers
          (populate_ends s file offset owner other t m db)
          (λ r. edited owner t other r (old r) (find r m))
  unfolding populate_ends
  populate_ends-Gathers owner other t m h = elim (Option-cases (find other m)) [
    | inl missing ↦ (
      store other (edit t owner (old other)) m,
      rw (missing, reads other, populate_ends),
      store-IsDistinct other _ m h,
      stored owner other t m (old other) (rw missing),
    )
    | inr (subs, found) ↦ (
      store other (edit t owner subs) m,
      rw (found, populate_ends),
      store-IsDistinct other _ m h,
      stored owner other t m subs (rw found),
    )
  ]

  populate_refer-Gathers :
      (owner other : Option RefIdMsg) (t : DepChange) (m : Changed)
      → IsDistinct m
      → Gathers
          (populate_changed_subs s file offset (record { owner = owner; other = other }) t m db)
          (λ r. pending_one owner other t r (old r) (find r m))
  unfolding populate_changed_subs
  populate_refer-Gathers none other t m h = (m, refl, h, λ r. refl)
  populate_refer-Gathers (some owner) none t m h = (m, refl, h, λ r. refl)
  populate_refer-Gathers (some owner) (some other) t m h =
      populate_ends-Gathers (from_msg owner) (from_msg other) t m h

  pub populate_all-Gathers :
      (diffs : List (Option (ReferenceMsg × DepChange))) (m : Changed)
      → IsDistinct m
      → Gathers (populate_all s file offset diffs m db) (λ r. pending diffs r (old r) (find r m))
  unfolding populate_all
  populate_all-Gathers [] m h = (m, refl, h, λ r. refl)
  populate_all-Gathers (none ∷ diffs) m h = populate_all-Gathers diffs m h
  populate_all-Gathers (some (refer, t) ∷ diffs) m h =
      let (m', one, h', told) = populate_refer-Gathers refer.owner refer.other t m h in
      let (m'', all, h'', told') = populate_all-Gathers diffs m' h' in
      (m'', rw (one, populate_all) all, h'', λ r. told' r ∙ ap (pending diffs r (old r)) (told r))
