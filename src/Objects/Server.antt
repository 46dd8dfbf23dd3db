-- ===== src/Objects/Server.antt =====
-- The requests of objects/src/main.rs, after the connection is made.
use kafka_cad.Prelude.{String, List, map, Eq}
use kafka_cad.Prelude.Int.{ℤ}
use kafka_cad.Prelude.Result.{Result, map_err}
use kafka_cad.State.{OptionChangeMsg}
use kafka_cad.Objects
use kafka_cad.Objects.{StatusCode, status_code, GetObjectsInput, Services}

module _ {Blob : Type 0} ⦃e : Eq Blob⦄ (s : Services Blob) where
  unfoldable pub get_objects : GetObjectsInput → s.Db → Result StatusCode (List OptionChangeMsg)
  get_objects msg db = map_err status_code (Objects.get_objects s msg db)

  unfoldable pub get_latest_offset : String → s.Db → Result StatusCode ℤ
  get_latest_offset file db = map_err status_code (Objects.get_latest_offset s file db)

  -- What is sent to the client, in order.
  unfoldable pub get_latest_object_list : String → s.Db → List (Result StatusCode String)
  get_latest_object_list file db = map (map_err status_code) (Objects.get_latest_obj_list s file db)
