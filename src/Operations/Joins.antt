-- ===== src/Operations/Joins.antt =====
-- operations/operations-lib/src/joins.rs: an object is made to follow the nearest part of another.
pub mod Nearest
use kafka_cad.Prelude.{ℕ, suc, Bool, Option, none, some, List, [], ◌∷◌, if◌then◌else◌}
use kafka_cad.Prelude.Result.{Result, ok, err, ◌>>=◌}
use kafka_cad.Operations.Geom.{Point3f, Floats}
use kafka_cad.Operations.References.{RefType, ObjId, RefId, RefResult, point, distance2}
use kafka_cad.Operations.Errors.{ObjError, join}
use kafka_cad.Operations.Data.{Data}

module _ {fl : Floats} (d : Data fl) where
  -- The loop of get_closest_result over its variables. It never fails.
  pub closest_result :
      ObjId
      → RefType
      → Point3f fl.F
      → List (RefResult fl.F fl.Json)
      → Option (RefId × RefResult fl.F fl.Json)
      → fl.F
      → ℕ
      → Option (RefId × RefResult fl.F fl.Json)
  closest_result id only_match guess [] result dist index = result
  closest_result id only_match guess (ref_res ∷ results) result dist index =
      elim (distance2 fl ref_res guess) [
        | none ↦ closest_result id only_match guess results result dist (suc index)
        | some cur_dist ↦
            let nearer = fl.less cur_dist dist in
            let which : RefId = record { id = id; ref_type = only_match; index = index } in
            closest_result id only_match guess results
              (if nearer then some (which, ref_res) else result) (if nearer then cur_dist else dist)
              (suc index)
      ]

  pub get_closest_result : d.Obj → RefType → Point3f fl.F → Option (RefId × RefResult fl.F fl.Json)
  get_closest_result obj only_match guess =
      closest_result (d.get_id obj) only_match guess (d.get_results_for_type only_match obj) none
        fl.max_f 0

  -- The loop of get_closest_ref.
  pub closest_ref : d.Obj → RefType → Point3f fl.F → List ℕ → Option ℕ → fl.F → Option ℕ
  closest_ref obj only_match guess [] result_ind dist = result_ind
  closest_ref obj only_match guess (index ∷ indices) result_ind dist =
      elim (d.get_result only_match index obj) [
        | none ↦ closest_ref obj only_match guess indices result_ind dist
        | some ref_result ↦ elim (distance2 fl ref_result guess) [
          | none ↦ closest_ref obj only_match guess indices result_ind dist
          | some cur_dist ↦
              let nearer = fl.less cur_dist dist in
              closest_ref obj only_match guess indices (if nearer then some index else result_ind)
                (if nearer then cur_dist else dist)
        ]
      ]

  pub get_closest_ref : d.Obj → RefType → Point3f fl.F → Option ℕ
  get_closest_ref obj only_match guess =
      closest_ref obj only_match guess (d.get_available_refs_for_type only_match obj) none fl.max_f

  pub snap_to_ref : d.Obj → d.Obj → RefType → Point3f fl.F → Result ObjError d.Obj
  snap_to_ref obj other_obj only_match guess =
      elim (get_closest_result other_obj only_match guess) [
        | none ↦ err join
        | some (which, calc_res) ↦ elim (get_closest_ref obj only_match guess) [
          | some index ↦ ok (d.set_ref only_match index calc_res which (some (point guess)) obj)
          | none ↦
              let (added, obj') = d.add_ref only_match calc_res which (some (point guess)) obj in
              if added then ok obj' else err join
        ]
      ]

  pub join_refs : d.Obj → d.Obj → RefType → RefType → Point3f fl.F → Result ObjError (d.Obj × d.Obj)
  join_refs first second first_wants second_wants guess =
      snap_to_ref second first second_wants guess >>= λ second'.
      snap_to_ref first second' first_wants guess >>= λ first'. ok (first', second')
