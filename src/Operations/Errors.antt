-- ===== src/Operations/Errors.antt =====
-- ObjError of operations/obj-traits/src/lib.rs, without its messages.
use kafka_cad.Prelude.{String}
use kafka_cad.Status.{Code, internal, not_found, invalid_argument, unavailable}
use kafka_cad.Operations.References.{ObjId, RefId}

pub data ObjError : Type 0 where
  obj_not_found obj_deleted obj_wrong_type : ObjId → ObjError
  geom_not_found : RefId → ObjError
  join : ObjError
  obj_lacks_trait : ObjId → String → ObjError
  json_error bincode_error prost_encode_error prost_decode_error connect_error uuid_error : ObjError
  status_error : Code → ObjError
  other : ObjError

-- impl Into<tonic::Status> for ObjError
unfoldable pub to_status : ObjError → Code
to_status (obj_not_found id) = not_found
to_status (obj_deleted id) = not_found
to_status (obj_wrong_type id) = not_found
to_status (geom_not_found ref_id) = not_found
to_status join = not_found
to_status (obj_lacks_trait id trait) = invalid_argument
to_status json_error = internal
to_status bincode_error = internal
to_status prost_encode_error = internal
to_status prost_decode_error = internal
to_status connect_error = unavailable
to_status uuid_error = internal
to_status (status_error code) = code
to_status other = internal
