-- ===== src/Dependencies/Search.antt =====
-- breadth_first_search and get_all_deps of dependencies/src/cache.rs. The loop runs on fuel: None
-- is what it gives when the fuel is not enough.
pub mod Traces
pub mod Rounds
pub mod Visits
pub mod Reaches
pub mod Union
use kafka_cad.Prelude.{
  ℕ, zero, suc, String, Bool, Option, none, some, List, [], ◌∷◌, ◌++◌, map, Eq, ◌==◌, if◌then◌else◌,
}
use kafka_cad.Prelude.Int.{ℤ}
use kafka_cad.Prelude.Result.{Result, ok, err}
use kafka_cad.State.{RefIdMsg, ReferenceMsg}
use kafka_cad.Redis.{contains}
use kafka_cad.Dependencies.{DepError, Services, insert, get_ref_id_subs}
use kafka_cad.Dependencies.Sets.{IndexSet}
use kafka_cad.Dependencies.Refs.{RefId, Reference, ref_id_eq, reference_eq, from_msg, reference_msg}

-- The variables of the loop.
pub record Search : Type 0 where
  pub processing : List RefId
  pub visited : List RefId
  pub result : List Reference

pub visit_one : IndexSet → RefId → RefId → Search → Search
visit_one index current sub st = if contains st.visited sub then st else record {
  visited = insert sub st.visited;
  result = index.add_last (record { owner = sub; other = current }) st.result;
  processing = st.processing ++ sub ∷ [];
}

pub visit : IndexSet → RefId → List RefId → Search → Search
visit index current [] st = st
visit index current (sub ∷ sub_set) st =
    visit index current sub_set (visit_one index current sub st)

module _ {Blob : Type 0} ⦃e : Eq Blob⦄ (s : Services Blob) where
  pub search : ℕ → String → ℤ → Search → s.Db → Option (Result DepError (List Reference))
  search zero file offset st db = elim st.processing [
    | [] ↦ some (ok st.result)
    | current ∷ rest ↦ none
  ]
  search (suc fuel) file offset st db = elim st.processing [
    | [] ↦ some (ok st.result)
    | current ∷ rest ↦ elim (get_ref_id_subs s file current offset db) [
      | err e ↦ some (err e)
      | ok sub_set ↦
          search fuel file offset
            (visit s.index_set current (s.walk sub_set) (record st { processing = rest })) db
    ]
  ]

  pub breadth_first_search :
      ℕ → String → ℤ → RefId → s.Db → Option (Result DepError (List Reference))
  breadth_first_search fuel file offset ref_id db =
      search fuel file offset
        (record { processing = ref_id ∷ []; visited = ref_id ∷ []; result = [] }) db

  -- The first loop of get_all_deps.
  pub collect_deps :
      ℕ
      → String
      → ℤ
      → List RefIdMsg
      → List Reference
      → s.Db
      → Option (Result DepError (List Reference))
  collect_deps fuel file offset [] result_set db = some (ok result_set)
  collect_deps fuel file offset (ref_id ∷ ref_ids) result_set db =
      elim (breadth_first_search fuel file offset (from_msg ref_id) db) [
        | none ↦ none
        | some run ↦ elim run [
          | err e ↦ some (err e)
          | ok set ↦ collect_deps fuel file offset ref_ids (s.index_set.extend result_set set) db
        ]
      ]

  pub get_all_deps :
      ℕ → String → ℤ → List RefIdMsg → s.Db → Option (Result DepError (List ReferenceMsg))
  get_all_deps fuel file offset ref_ids db = elim (collect_deps fuel file offset ref_ids [] db) [
    | none ↦ none
    | some run ↦ elim run [
      | err e ↦ some (err e)
      | ok result_set ↦ some (ok (map reference_msg result_set))
    ]
  ]
