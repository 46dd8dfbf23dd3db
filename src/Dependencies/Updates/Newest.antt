-- ===== src/Dependencies/Updates/Newest.antt =====
-- What get_ref_id_subs finds in a list of versions.
use native.Mathlib.Nat.{add-zero, zero-add, suc-add, add-suc}
use kafka_cad.Prelude.{
  ℕ, suc, ◌+◌, String, ◌≡◌, refl, sym, ◌∙◌, ap, List, [], ◌∷◌, length, get_elem?, none, some, Eq,
  arith, if◌then◌else◌,
}
use kafka_cad.Prelude.Int.{ℤ, leb_ℤ}
use kafka_cad.Prelude.Result.{Result, ok, err}
use kafka_cad.Dependencies.{
  DepError, bincode_error, Services, ref_id_subscribers, get_subs_from, get_ref_id_subs,
  get_obj_refs, obj_refs,
}
use kafka_cad.Dependencies.Refs.{RefId}

module _ {Blob : Type 0} ⦃e : Eq Blob⦄ (s : Services Blob) where
  -- The loop on the list itself.
  abbrev pub newest : ℤ → List Blob → Result DepError (List RefId)
  newest offset [] = ok []
  newest offset (b ∷ bs) = elim (s.subscribers.decode b) [
    | none ↦ err bincode_error
    | some entry ↦
        let rest = newest offset bs in if leb_ℤ entry.offset offset then ok entry.subs else rest
  ]

  get_subs_from-newest :
      (bs : List Blob) (i : ℕ) (key : String) (offset : ℤ) (db : s.Db)
      → ((j : ℕ) → s.lindex db key (i + j) ≡ get_elem? bs j)
      → get_subs_from s (length bs) i key offset db ≡ newest offset bs
  unfolding get_subs_from
  get_subs_from-newest [] i key offset db h = refl
  get_subs_from-newest (b ∷ bs) i key offset db h =
      let here = ap (s.lindex db key) (sym (add-zero i)) ∙ h 0 in
      let there = λ (j : ℕ). ap (s.lindex db key) (suc-add i j ∙ sym (add-suc i j)) ∙ h (suc j) in
      ground (arith, here, get_subs_from-newest bs (suc i) key offset db there)

  pub get_ref_id_subs-newest :
      (file : String) (r : RefId) (offset : ℤ) (db : s.Db)
      → get_ref_id_subs s file r offset db
        ≡ newest offset (s.lrange db (ref_id_subscribers s file r))
  unfolding get_ref_id_subs
  get_ref_id_subs-newest file r offset db =
      let key = ref_id_subscribers s file r in
      rw (s.llen_lem db key, get_ref_id_subs)
        (get_subs_from-newest (s.lrange db key) 0 key offset db
          (λ j. s.lindex_lem db key (0 + j) ∙ ap (get_elem? (s.lrange db key)) (zero-add j)))

  -- An object with nothing stored.
  pub get_obj_refs-none :
      (file id : String) (db : s.Db)
      → s.get db (obj_refs file id) ≡ none
      → get_obj_refs s file id db ≡ ok none
  unfolding get_obj_refs
  get_obj_refs-none file id db h = rw (h, get_obj_refs)
