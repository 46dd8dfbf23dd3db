-- ===== src/Operations/Ops.antt =====
-- operations/operations-lib/src/ops.rs.
pub mod Groups
use kafka_cad.Prelude.{ℕ, Bool, Option, none, some, List, [], ◌∷◌, string_eq, ◌==◌, if◌then◌else◌}
use kafka_cad.Prelude.Result.{Result, ok, err}
use kafka_cad.Redis.{contains}
use kafka_cad.Operations.Geom.{Point3f, Floats}
use kafka_cad.Operations.References.{drawable, ObjId, Reference}
use kafka_cad.Operations.Errors.{ObjError, obj_wrong_type}
use kafka_cad.Operations.Data.{Data}

module _ {fl : Floats} (d : Data fl) where
  -- An object that has no position stays as it is.
  pub move_objects : List d.Obj → Point3f fl.F → List d.Obj
  move_objects [] delta = []
  move_objects (obj ∷ objs) delta =
      (elim (d.move_obj delta obj) [ none ↦ obj | some moved ↦ moved ]) ∷ move_objects objs delta

  pub add_objs : List d.Obj → d.Obj → d.Obj
  add_objs [] group = group
  add_objs (obj ∷ objs) group = elim (d.get_result drawable 0 obj) [
    | none ↦ add_objs objs group
    | some res ↦
        add_objs objs
          (d.add_ref drawable res (record { id = d.get_id obj; ref_type = drawable; index = 0 })
            none group).1
  ]

  pub add_objs_to_visibility_group : d.Obj → List d.Obj → Result ObjError d.Obj
  add_objs_to_visibility_group group objs =
      if d.is_visibility_group group
      then ok (add_objs objs group)
      else err (obj_wrong_type (d.get_id group))

  -- The loop over the references that the group had. The inner loop stops at the first id that
  -- fits.
  pub remove_objs : List (Option Reference) → List ObjId → d.Obj → d.Obj
  remove_objs [] objs group = group
  remove_objs (none ∷ refs) objs group = remove_objs refs objs group
  remove_objs (some refer ∷ refs) objs group = remove_objs refs objs (
      if contains objs refer.other.id then d.delete_ref drawable refer.owner.index group else group)

  pub remove_objs_from_visibility_group : d.Obj → List ObjId → Result ObjError d.Obj
  remove_objs_from_visibility_group group objs =
      if d.is_visibility_group group
      then ok (remove_objs (d.get_refs group) objs group)
      else err (obj_wrong_type (d.get_id group))
