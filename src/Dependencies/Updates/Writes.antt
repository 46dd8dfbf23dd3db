-- ===== src/Dependencies/Updates/Writes.antt =====
-- What the writes of dependencies/src/cache.rs leave under each key.
use kafka_cad.Prelude.{
  String, ◌≡◌, ◌≢◌, refl, subst, ap, ◌∙◌, Option, none, some, List, [], ◌∷◌, Eq, ◌==◌, Eq-cases,
  inl, inr, string_eq, arith, if◌then◌else◌, ne_of_beq,
}
use kafka_cad.Prelude.Int.{ℤ, leb_ℤ}
use kafka_cad.Prelude.Text.{colon_injective, colon_cancel_left}
use kafka_cad.Prelude.Result.{Result, ok}
use kafka_cad.Dependencies.{
  DepError, Services, Changed, find, obj_refs, ref_id_subscribers, update_ref_id_subscribers,
}
use kafka_cad.Dependencies.Refs.{RefId, ref_id_eq}
use kafka_cad.Dependencies.Updates.{write_subs}
use kafka_cad.Dependencies.Updates.Newest.{newest}
use kafka_cad.Dependencies.Updates.Pending.{IsDistinct}

subs_differs : ◌≢◌ {A = String} "subs" "deps"
subs_differs p = ne_of_beq "subs" "deps" refl p

pub obj_refs-beq : (file a b : String) → (obj_refs file a == obj_refs file b) ≡ (a == b)
unfolding obj_refs
obj_refs-beq file a b = elim (Eq-cases a b) [
  | inl (t, p) ↦
      rw t ((string_eq.beq_iff (obj_refs file a) (obj_refs file b)).1 (ap (obj_refs file) p))
  | inr (t, n) ↦ rw t (elim (Eq-cases (obj_refs file a) (obj_refs file b)) [
    | inl (_, p) ↦ absurd (
        n
          (colon_injective a b "deps" "deps" (omega arith) (omega arith)
            (colon_cancel_left file _ _ p)).0)
    | inr (u, _) ↦ u
  ])
]

module _ {Blob : Type 0} ⦃e : Eq Blob⦄ (s : Services Blob) (file : String) where
  subscribers_injective :
      (a b : RefId) → ref_id_subscribers s file a ≡ ref_id_subscribers s file b → a ≡ b
  unfolding ref_id_subscribers
  subscribers_injective a b p =
      s.debug_injective a b
        (colon_injective (s.debug a) (s.debug b) "subs" "subs" (omega arith) (omega arith)
          (colon_cancel_left file _ _ p)).0

  subscribers-beq :
      (a b : RefId) → (ref_id_subscribers s file a == ref_id_subscribers s file b) ≡ (a == b)
  subscribers-beq a b = elim (Eq-cases a b) [
    | inl (t, p) ↦ rw t ((string_eq.beq_iff _ _).1 (ap (ref_id_subscribers s file) p))
    | inr (t, n) ↦
        rw t (elim (Eq-cases (ref_id_subscribers s file a) (ref_id_subscribers s file b)) [
          | inl (_, p) ↦ absurd (n (subscribers_injective a b p))
          | inr (u, _) ↦ u
        ])
  ]

  pub subscribers-ne-obj_refs :
      (a : RefId) (id : String) → ref_id_subscribers s file a ≢ obj_refs file id
  unfolding ref_id_subscribers obj_refs
  subscribers-ne-obj_refs a id p =
      subs_differs
        (colon_injective (s.debug a) id "subs" "deps" (omega arith) (omega arith)
          (colon_cancel_left file _ _ p)).1

  -- The list of a reference after the writes.
  abbrev pub pushed : ℤ → Option (List RefId) → List Blob → List Blob
  pushed offset none bs = bs
  pushed offset (some subs) bs = s.subscribers.encode (record { offset = offset; subs = subs }) ∷ bs

  lrange-push :
      (offset : ℤ) (k r : RefId) (v : List RefId) (db : s.Db)
      → s.lrange (update_ref_id_subscribers s file offset k v db) (ref_id_subscribers s file r) ≡ (
          if k == r
          then pushed offset (some v) (s.lrange db (ref_id_subscribers s file r))
          else s.lrange db (ref_id_subscribers s file r))
  unfolding update_ref_id_subscribers
  lrange-push offset k r v db = s.lrange-lpush db _ _ _ ∙ rw (subscribers-beq k r)

  pub lrange-write_subs :
      (offset : ℤ) (r : RefId) (m : Changed) (db : s.Db)
      → IsDistinct m
      → s.lrange (write_subs s file offset m db) (ref_id_subscribers s file r)
        ≡ pushed offset (find r m) (s.lrange db (ref_id_subscribers s file r))
  unfolding write_subs update_ref_id_subscribers
  lrange-write_subs offset r [] db h = refl
  lrange-write_subs offset r ((k, v) ∷ m) db (h, hs) =
      lrange-write_subs offset r m _ hs
      ∙ ap (pushed offset (find r m)) (lrange-push offset k r v db)
      ∙ elim (Eq-cases k r) [
        | inl (t, p) ↦ rw t (
            ap
              (λ o. pushed offset o (
                s.subscribers.encode (record { offset = offset; subs = v })
                ∷ s.lrange db (ref_id_subscribers s file r)))
              (subst (λ j. find j m ≡ none) p h))
        | inr (t, _) ↦ rw t
      ]

  pub get-write_subs :
      (offset : ℤ) (id : String) (m : Changed) (db : s.Db)
      → s.get (write_subs s file offset m db) (obj_refs file id) ≡ s.get db (obj_refs file id)
  unfolding write_subs update_ref_id_subscribers
  get-write_subs offset id [] db = refl
  get-write_subs offset id ((k, v) ∷ m) db =
      get-write_subs offset id m _ ∙ s.get-lpush db _ _ _ (subscribers-ne-obj_refs k id)

  -- What a reader at an offset gets after a version was written, where one was.
  abbrev pub reading :
      ℤ → Option (List RefId) → ℤ → Result DepError (List RefId) → Result DepError (List RefId)
  reading offset none at before = before
  reading offset (some subs) at before = if leb_ℤ offset at then ok subs else before

  pub newest-pushed :
      (offset : ℤ) (o : Option (List RefId)) (at : ℤ) (bs : List Blob)
      → newest s at (pushed offset o bs) ≡ reading offset o at (newest s at bs)
  newest-pushed offset none at bs = refl
  newest-pushed offset (some subs) at bs =
      rw (s.subscribers.decode-encode (record { offset = offset; subs = subs }))
