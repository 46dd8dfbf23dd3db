-- ===== src/Operations/Joins/Nearest.antt =====
-- What get_closest_result and get_closest_ref find: both look for the least distance.
use kafka_cad.Prelude.{
  ℕ, suc, ◌≡◌, refl, true, false, Option, none, some, List, [], ◌∷◌, map, Bool-cases, Option-cases,
  inl, inr, ◌⊎◌, if◌then◌else◌,
}
use kafka_cad.Operations.Geom.{Point3f, Floats}
use kafka_cad.Operations.References.{RefType, ObjId, RefId, RefResult, distance2}
use kafka_cad.Operations.Data.{Data}
use kafka_cad.Operations.Joins.{closest_result, get_closest_result, closest_ref, get_closest_ref}

-- What `<` of f64 has, also with a NaN.
pub record FloatOrder (fl : Floats) : Type 0 where
  pub irreflexive : (a : fl.F) → fl.less a a ≡ false
  pub transitive : (a b c : fl.F) → fl.less a b ≡ true → fl.less b c ≡ true → fl.less a c ≡ true

farther :
    (fl : Floats) (order : FloatOrder fl) (a b c : fl.F)
    → fl.less b c ≡ true
    → fl.less a c ≡ false
    → fl.less a b ≡ false
farther fl order a b c p q = elim (Bool-cases (fl.less a b)) [
  | inr t ↦ t
  | inl t ↦ let r = order.transitive a b c t p in cc (q, r)
]

module _ (fl : Floats) {K : Type 0} where
  -- The loop on candidates with their distances.
  abbrev pub scan : List (K × Option fl.F) → Option K → fl.F → Option K
  scan [] best dist = best
  scan ((k, none) ∷ l) best dist = scan l best dist
  scan ((k, some c) ∷ l) best dist =
      scan l (if fl.less c dist then some k else best) (if fl.less c dist then c else dist)

  -- A candidate at a distance.
  abbrev pub Among : K → fl.F → List (K × Option fl.F) → Type 0
  Among k c [] = ⊥
  Among k c ((j, o) ∷ l) = (j ≡ k) × (o ≡ some c) ⊎ Among k c l

  -- Nearer than the limit, and no candidate is nearer; or none is nearer than the limit.
  abbrev pub IsNearest : List (K × Option fl.F) → fl.F → Option K → Type 0
  IsNearest l limit none = (k : K) (c : fl.F) → Among k c l → fl.less c limit ≡ false
  IsNearest l limit (some k) =
      (c : fl.F) × Among k c l
      × (fl.less c limit ≡ true)
      × ((j : K) (c' : fl.F) → Among j c' l → fl.less c' c ≡ false)

  -- What the loop finds is the best before it, with nothing nearer, or is the nearest.
  abbrev Scanned : List (K × Option fl.F) → Option K → fl.F → Option K → Type 0
  Scanned l best dist found =
      (found ≡ best) × IsNearest l dist none
      ⊎ (k : K) × (found ≡ some k) × IsNearest l dist (some k)

  module _ (order : FloatOrder fl) where
    skipped :
        (k : K) (l : List (K × Option fl.F)) (best found : Option K) (dist : fl.F)
        → Scanned l best dist found
        → Scanned ((k, none) ∷ l) best dist found
    skipped k l best found dist (inl (e, far)) = inl (e, far')
      where
        far' : (j : K) (c' : fl.F) → Among j c' ((k, none) ∷ l) → fl.less c' dist ≡ false
        far' j c' (inl (_, q)) = cc q
        far' j c' (inr m) = far j c' m
    skipped k l best found dist (inr (i, e, (c, at, near, far))) =
        inr (i, e, (c, inr at, near, far'))
      where
        far' : (j : K) (c' : fl.F) → Among j c' ((k, none) ∷ l) → fl.less c' c ≡ false
        far' j c' (inl (_, q)) = cc q
        far' j c' (inr m) = far j c' m

    nearer :
        (k : K) (c : fl.F) (l : List (K × Option fl.F)) (best found : Option K) (dist : fl.F)
        → fl.less c dist ≡ true
        → Scanned l (some k) c found
        → Scanned ((k, some c) ∷ l) best dist found
    nearer k c l best found dist t (inl (e, far)) = inr (k, e, (c, inl (refl, refl), t, far'))
      where
        far' : (j : K) (c' : fl.F) → Among j c' ((k, some c) ∷ l) → fl.less c' c ≡ false
        far' j c' (inl (_, q)) = let same : c ≡ c' = cc q in rw (← same) (order.irreflexive c)
        far' j c' (inr m) = far j c' m
    nearer k c l best found dist t (inr (i, e, (d, at, near, far))) =
        inr (i, e, (d, inr at, order.transitive d c dist near t, far'))
      where
        far' : (j : K) (c' : fl.F) → Among j c' ((k, some c) ∷ l) → fl.less c' d ≡ false
        far' j c' (inl (_, q)) =
            let same : c ≡ c' = cc q in
            rw (← same) (farther fl order c d c near (order.irreflexive c))
        far' j c' (inr m) = far j c' m

    passed :
        (k : K) (c : fl.F) (l : List (K × Option fl.F)) (best found : Option K) (dist : fl.F)
        → fl.less c dist ≡ false
        → Scanned l best dist found
        → Scanned ((k, some c) ∷ l) best dist found
    passed k c l best found dist t (inl (e, far)) = inl (e, far')
      where
        far' : (j : K) (c' : fl.F) → Among j c' ((k, some c) ∷ l) → fl.less c' dist ≡ false
        far' j c' (inl (_, q)) = let same : c ≡ c' = cc q in rw (← same) t
        far' j c' (inr m) = far j c' m
    passed k c l best found dist t (inr (i, e, (d, at, near, far))) =
        inr (i, e, (d, inr at, near, far'))
      where
        far' : (j : K) (c' : fl.F) → Among j c' ((k, some c) ∷ l) → fl.less c' d ≡ false
        far' j c' (inl (_, q)) =
            let same : c ≡ c' = cc q in rw (← same) (farther fl order c d dist near t)
        far' j c' (inr m) = far j c' m

    scan-Scanned :
        (l : List (K × Option fl.F)) (best : Option K) (dist : fl.F)
        → Scanned l best dist (scan l best dist)
    scan-Scanned [] best dist = inl (refl, λ k c m. absurd m)
    scan-Scanned ((k, none) ∷ l) best dist =
        skipped k l best (scan l best dist) dist (scan-Scanned l best dist)
    scan-Scanned ((k, some c) ∷ l) best dist = elim (Bool-cases (fl.less c dist)) [
      | inl t ↦ rw t (nearer k c l best (scan l (some k) c) dist t (scan-Scanned l (some k) c))
      | inr t ↦ rw t (passed k c l best (scan l best dist) dist t (scan-Scanned l best dist))
    ]

    pub scan-IsNearest :
        (l : List (K × Option fl.F)) (dist : fl.F) → IsNearest l dist (scan l none dist)
    scan-IsNearest l dist = elim (scan-Scanned l none dist) [
      | inl (e, far) ↦ rw e far
      | inr (k, e, near) ↦ rw e near
    ]

module _ (fl : Floats) (only_match : RefType) (guess : Point3f fl.F) where
  -- The results from a place on, with the ids that they get and their distances.
  abbrev pub result_distances :
      ObjId
      → ℕ
      → List (RefResult fl.F fl.Json)
      → List ((RefId × RefResult fl.F fl.Json) × Option fl.F)
  result_distances id index [] = []
  result_distances id index (ref_res ∷ results) =
      (
        (record { id = id; ref_type = only_match; index = index }, ref_res),
        distance2 fl ref_res guess,
      )
      ∷ result_distances id (suc index) results

module _ {fl : Floats} (d : Data fl) (only_match : RefType) (guess : Point3f fl.F) where
  abbrev pub ref_distance : d.Obj → ℕ → Option fl.F
  ref_distance obj index = elim (d.get_result only_match index obj) [
    | none ↦ none
    | some ref_result ↦ distance2 fl ref_result guess
  ]

  abbrev pub ref_distances : d.Obj → List ℕ → List (ℕ × Option fl.F)
  ref_distances obj indices = map (λ index. (index, ref_distance obj index)) indices

  closest_ref-scan :
      (obj : d.Obj) (indices : List ℕ) (best : Option ℕ) (dist : fl.F)
      → closest_ref d obj only_match guess indices best dist
        ≡ scan fl (ref_distances obj indices) best dist
  unfolding closest_ref
  closest_ref-scan obj [] best dist = refl
  closest_ref-scan obj (index ∷ indices) best dist =
      elim (Option-cases (d.get_result only_match index obj)) [
        | inl p ↦ rw (p, closest_ref, ref_distance) (closest_ref-scan obj indices best dist)
        | inr (ref_result, p) ↦ elim (Option-cases (distance2 fl ref_result guess)) [
          | inl q ↦ rw (p, q, closest_ref, ref_distance) (closest_ref-scan obj indices best dist)
          | inr (cur, q) ↦ rw (p, q, closest_ref, ref_distance) (closest_ref-scan obj indices _ _)
        ]
      ]

  closest_result-scan :
      (id : ObjId) (results : List (RefResult fl.F fl.Json))
      (best : Option (RefId × RefResult fl.F fl.Json)) (dist : fl.F) (index : ℕ)
      → closest_result d id only_match guess results best dist index
        ≡ scan fl (result_distances fl only_match guess id index results) best dist
  unfolding closest_result
  closest_result-scan id [] best dist index = refl
  closest_result-scan id (ref_res ∷ results) best dist index =
      elim (Option-cases (distance2 fl ref_res guess)) [
        | inl q ↦ rw (q, closest_result) (closest_result-scan id results best dist (suc index))
        | inr (cur, q) ↦ rw (q, closest_result) (closest_result-scan id results _ _ (suc index))
      ]

module _ {fl : Floats} (d : Data fl) (order : FloatOrder fl) (only_match : RefType)
    (guess : Point3f fl.F) where
  -- get_closest_ref answers a free reference of the type, whose result has a distance that is below
  -- the limit and that no free reference of the type is nearer than; or nothing, where no free
  -- reference is nearer than the limit.
  pub get_closest_ref-IsNearest :
      (obj : d.Obj)
      → IsNearest fl
          (ref_distances d only_match guess obj (d.get_available_refs_for_type only_match obj))
          fl.max_f
          (get_closest_ref d obj only_match guess)
  unfolding get_closest_ref
  get_closest_ref-IsNearest obj =
      let indices = d.get_available_refs_for_type only_match obj in
      rw (closest_ref-scan d only_match guess obj indices none fl.max_f)
        (scan-IsNearest fl order (ref_distances d only_match guess obj indices) fl.max_f)

  -- get_closest_result answers a result of the type, under its place among the object's results of
  -- the type, whose distance is below the limit and that no result of the type is nearer than; or
  -- nothing, where no result of the type is nearer than the limit.
  pub get_closest_result-IsNearest :
      (obj : d.Obj)
      → IsNearest fl
          (result_distances fl only_match guess
            (d.get_id obj)
            0
            (d.get_results_for_type only_match obj))
          fl.max_f
          (get_closest_result d obj only_match guess)
  unfolding get_closest_result
  get_closest_result-IsNearest obj =
      let results = d.get_results_for_type only_match obj in
      rw (closest_result-scan d only_match guess (d.get_id obj) results none fl.max_f 0) (
        scan-IsNearest fl order (result_distances fl only_match guess (d.get_id obj) 0 results)
          fl.max_f)
