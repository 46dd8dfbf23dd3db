-- ===== src/Dependencies/Search/Union.antt =====
-- get_all_deps: the searches of all starts in one set.
use kafka_cad.Prelude.{
  ℕ, suc, ◌≤◌, String, ◌≡◌, refl, sym, ◌∙◌, Bool, true, false, ◌||◌, some, List, [], ◌∷◌, ◌++◌, map,
  length, Eq, ◌==◌, Eq-cases, Bool-cases, inl, inr, arith,
}
use kafka_cad.Prelude.Int.{ℤ}
use kafka_cad.Prelude.Result.{ok}
use kafka_cad.State.{RefIdMsg}
use kafka_cad.Redis.{contains}
use kafka_cad.Dependencies.{Services, get_ref_id_subs}
use kafka_cad.Dependencies.Refs.{RefId, Reference, ref_id_eq, reference_eq, from_msg, reference_msg}
use kafka_cad.Dependencies.Sets.{IndexSet}
use kafka_cad.Dependencies.Search.{collect_deps, get_all_deps}
use kafka_cad.Dependencies.Search.Traces.{contains-concat}
use kafka_cad.Dependencies.Search.Reaches.{IsSearch, breadth_first_search-IsSearch}

abbrev pub AreDistinct : List Reference → Type 0
AreDistinct [] = Unit {0}
AreDistinct (refer ∷ refers) = (contains refers refer ≡ false) × AreDistinct refers

concat-AreDistinct :
    (set : List Reference) (refer : Reference)
    → contains set refer ≡ false
    → AreDistinct set
    → AreDistinct (set ++ refer ∷ [])
concat-AreDistinct [] refer h d = (refl, tt)
concat-AreDistinct (r ∷ set) refer h (new, d) = elim (Eq-cases r refer) [
  | inl (t, _) ↦ absurd (let q : ◌≡◌ {A = Bool} true false = rw t at h in cc q)
  | inr (t, differ) ↦ (
    contains-concat set refer r ∙ (elim (Eq-cases refer r) [
      | inl (_, p) ↦ absurd (differ (sym p))
      | inr (u, _) ↦ rw (new, u)
    ]),
    concat-AreDistinct set refer (rw t at h) d,
  )
]

add_last-AreDistinct :
    (index : IndexSet) (refer : Reference) (set : List Reference)
    → AreDistinct set
    → AreDistinct (index.add_last refer set)
add_last-AreDistinct index refer set d =
    rw (index.add_last_order refer set) (elim (Bool-cases (contains set refer)) [
      | inl t ↦ rw t d
      | inr t ↦ rw t (concat-AreDistinct set refer t d)
    ])

contains-same :
    (set : List Reference) (refer x : Reference)
    → refer ≡ x
    → contains set refer ≡ true
    → contains set x ≡ true
contains-same set refer x p h = cc (p, h)

contains-add_last :
    (index : IndexSet) (refer : Reference) (set : List Reference) (x : Reference)
    → contains (index.add_last refer set) x ≡ (contains set x || refer == x)
contains-add_last index refer set x =
    rw (index.add_last_order refer set) (elim (Bool-cases (contains set refer)) [
      | inr t ↦ rw t (contains-concat set refer x)
      | inl t ↦ rw t (elim (Eq-cases refer x) [
        | inl (u, p) ↦ rw (u, contains-same set refer x p t)
        | inr (u, _) ↦ rw u (ground arith)
      ])
    ])

extend-AreDistinct :
    (index : IndexSet) (set refers : List Reference)
    → AreDistinct set
    → AreDistinct (index.extend set refers)
extend-AreDistinct index set [] d = rw (index.extend_none set) d
extend-AreDistinct index set (refer ∷ refers) d = rw (index.extend_some set refer refers) (
    extend-AreDistinct index (index.add_last refer set) refers
      (add_last-AreDistinct index refer set d))

contains-extend :
    (index : IndexSet) (set refers : List Reference) (x : Reference)
    → contains (index.extend set refers) x ≡ (contains set x || contains refers x)
contains-extend index set [] x = rw (index.extend_none set) (ground arith)
contains-extend index set (refer ∷ refers) x = rw (index.extend_some set refer refers) (
    contains-extend index (index.add_last refer set) refers x
    ∙ rw (contains-add_last index refer set x) (ground arith))

-- In one of the answers.
abbrev pub found_in : List (List Reference) → Reference → Bool
found_in [] x = false
found_in (found ∷ founds) x = contains found x || found_in founds x

-- The answers of the searches of the starts.
pub data AreSearches (subs : RefId → List RefId)
    : List RefIdMsg → List (List Reference) → Type 0 where
  no_start : AreSearches subs [] []
  one_start :
      (start : RefIdMsg) (found : List Reference) (starts : List RefIdMsg)
      (founds : List (List Reference))
      → IsSearch subs (from_msg start) found
      → AreSearches subs starts founds
      → AreSearches subs (start ∷ starts) (found ∷ founds)

-- A set without repetitions that has exactly what one of the searches of the starts answers.
pub record IsUnion (subs : RefId → List RefId) (starts : List RefIdMsg) (result : List Reference)
    : Type 0 where
  pub founds : List (List Reference)
  pub searches : AreSearches subs starts founds
  pub distinct : AreDistinct result
  pub members : (x : Reference) → contains result x ≡ found_in founds x

module _ {Blob : Type 0} ⦃e : Eq Blob⦄ (s : Services Blob) (file : String) (offset : ℤ) (db : s.Db)
    (subs : RefId → List RefId) (places : List RefId)
    (reads : (r : RefId) → get_ref_id_subs s file r offset db ≡ ok (subs r))
    (bounded : (r x : RefId) → contains (subs r) x ≡ true → contains places x ≡ true) (fuel : ℕ)
    (enough : suc (length places) ≤ fuel) where
  collect_deps-union :
      (starts : List RefIdMsg) (set : List Reference)
      → AreDistinct set
      → (result : List Reference) × (founds : List (List Reference)) × (collect_deps s fuel file
            offset starts set db
          ≡ some (ok result))
        × AreSearches subs starts founds
        × AreDistinct result
        × ((x : Reference) → contains result x ≡ (contains set x || found_in founds x))
  unfolding collect_deps
  collect_deps-union [] set d = (set, [], refl, no_start, d, λ x. ground arith)
  collect_deps-union (start ∷ starts) set d =
      let (found, runs, good) =
        breadth_first_search-IsSearch s file offset db subs places reads bounded fuel
          (from_msg start) enough in
      let (result, founds, all, searches, distinct, members) =
        collect_deps-union starts (s.index_set.extend set found)
          (extend-AreDistinct s.index_set set found d) in
      (
        result,
        found ∷ founds,
        rw (runs, collect_deps) all,
        one_start start found starts founds good searches,
        distinct,
        λ x. members x ∙ rw (contains-extend s.index_set set found x) (ground arith),
      )

  -- Where every set of subscribers at the offset can be read and all subscribers are among finitely
  -- many references, one round more than these are is fuel enough for each search: get_all_deps
  -- succeeds, and what it answers are the messages of a list without repetitions that has exactly
  -- the references that the search of one of the starts answers.
  pub get_all_deps-IsUnion :
      (starts : List RefIdMsg)
      → (result : List Reference) × (get_all_deps s fuel file offset starts db
          ≡ some (ok (map reference_msg result)))
        × IsUnion subs starts result
  unfolding get_all_deps
  get_all_deps-IsUnion starts =
      let (result, founds, runs, searches, distinct, members) = collect_deps-union starts [] tt in
      (
        result,
        rw (runs, get_all_deps) refl,
        record { founds = founds; searches = searches; distinct = distinct; members = members },
      )
