-- ===== src/Api.antt =====
-- The messages of proto/api.proto and the other services as api/src/main.rs sees them.
pub mod Common
pub mod Handlers
pub mod Own
pub mod Reads
use kafka_cad.Prelude.{String, Bool, Option, List}
use kafka_cad.Prelude.Int.{ℤ}
use kafka_cad.Prelude.Result.{Result}
use kafka_cad.Prelude.Exec.{Exec}
use kafka_cad.Status.{Code}
use kafka_cad.State.{ObjectMsg, ChangeMsg, OptionChangeMsg}
use kafka_cad.Objects.{GetObjectsInput}
use kafka_cad.Submit.Server.{SubmitChangesInput}
use kafka_cad.Operations.Geom.{Point2f, Point3f}
use kafka_cad.Operations.Server.{WallMsg}
use kafka_cad.Operations.Convert.{CustomViewMsg, ViewTypeMsg, CreateSheetInput, CreateViewportInput}

pub record OpPrefixMsg : Type 0 where
  pub file : String
  pub user : String
  pub offset : ℤ

pub data Service : Type 0 where
  undo_service submit_service rep_cache_service objects_service operations_service : Service

-- The other services over the network. `W` is the state of all of them, and `connect` says whether
-- a connection was made. An answer that may lack its object is an Option.
pub record Services (F Rep W : Type 0) : Type 0 where
  pub connect : Service → W → Bool × W
  pub begin_undo_event : String → String → Exec W Code (Unit {0})
  pub undo_latest : String → String → Exec W Code (List ChangeMsg)
  pub redo_latest : String → String → Exec W Code (List ChangeMsg)
  pub submit_changes : SubmitChangesInput → Exec W Code (List ℤ)
  pub get_objects : GetObjectsInput → Exec W Code (List OptionChangeMsg)
  pub get_latest_object_list : String → Exec W Code (List (Result Code String))
  pub get_object_representations : String → List String → Exec W Code (List Rep)
  pub create_walls : List (WallMsg F) → Exec W Code (List ObjectMsg)
  pub move_objects : List ObjectMsg → Option (Point3f F) → Exec W Code (List ObjectMsg)
  pub join_objects :
      Option ObjectMsg
      → Option ObjectMsg
      → ℤ
      → ℤ
      → Option (Point3f F)
      → Exec W Code (Option ObjectMsg × Option ObjectMsg)
  pub create_sheet : CreateSheetInput F → Exec W Code (Option ObjectMsg)
  pub create_viewport : CreateViewportInput F → Exec W Code (Option ObjectMsg)

-- The requests of the service Api, open_file apart. The messages of a wall and of a view have the
-- fields of those of proto/operations.proto.
pub data Request (F : Type 0) : Type 0 where
  begin_undo_event : String → String → Request F
  undo_latest redo_latest : Option OpPrefixMsg → Request F
  create_walls : Option OpPrefixMsg → List (WallMsg F) → Request F
  move_objects : Option OpPrefixMsg → List String → Option (Point3f F) → Request F
  join_objects_at_point : Option OpPrefixMsg → String → String → Option (Point3f F) → Request F
  delete_objects : Option OpPrefixMsg → List String → Request F
  create_sheet : Option OpPrefixMsg → String → Option (Point2f F) → Request F
  create_viewport :
      Option OpPrefixMsg → String → Option (ViewTypeMsg F) → Option (Point2f F) → F → Request F

pub data Response : Type 0 where
  began : Response
  submitted : ℤ → Response
  created : List String → ℤ → Response
