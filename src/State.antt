-- ===== src/State.antt =====
-- The messages of the ObjectState topic (proto/object_state.proto), as the generated Rust types
-- have them: a message field and a oneof are optional, and an enum field is an i32.
use kafka_cad.Prelude.{ℕ, String, Option, List}
use kafka_cad.Prelude.Int.{ℤ}

pub record RefIdMsg : Type 0 where
  pub id : String
  pub ref_type : ℤ
  pub index : ℕ

pub record ReferenceMsg : Type 0 where
  pub owner : Option RefIdMsg
  pub other : Option RefIdMsg

pub record OptionReferenceMsg : Type 0 where
  pub reference : Option ReferenceMsg

pub record DependenciesMsg : Type 0 where
  pub references : List OptionReferenceMsg

-- The bytes of a bincode object.
abbrev pub Bytes : Type 0
Bytes = List ℕ

pub record ObjectMsg : Type 0 where
  pub id : String
  pub dependencies : Option DependenciesMsg
  pub obj_data : Bytes

pub record DeleteMsg : Type 0 where
  pub id : String

pub data ChangeType : Type 0 where
  add : ObjectMsg → ChangeType
  modify : ObjectMsg → ChangeType
  delete : DeleteMsg → ChangeType

pub data ChangeSource : Type 0 where
  user_action : ChangeSource
  undo : String → ChangeSource
  redo : String → ChangeSource

pub record ChangeMsg : Type 0 where
  pub user : String
  pub change_type : Option ChangeType
  pub change_source : Option ChangeSource

pub record OptionChangeMsg : Type 0 where
  pub change : Option ChangeMsg

pub record ObjectAtOffset : Type 0 where
  pub offset : ℤ
  pub obj_id : String

-- The id of the object that a change is about, the empty text where the change has no type.
abbrev pub type_id : ChangeType → String
type_id (add object) = object.id
type_id (modify object) = object.id
type_id (delete msg) = msg.id
