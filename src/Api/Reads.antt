-- ===== src/Api/Reads.antt =====
-- What get_objects of api/src/common.rs answers where the object service has consumed a log.
use kafka_cad.Prelude.{
  String, Bool, true, false, ◌&&◌, ◌||◌, Option, none, some, List, [], ◌∷◌, if◌then◌else◌,
}
use kafka_cad.Prelude.Int.{ℤ}
use kafka_cad.Prelude.Result.{Result, ok, err}
use kafka_cad.Status.{Code, not_found}
use kafka_cad.State.{ObjectMsg}
use kafka_cad.Objects
use kafka_cad.Objects.History.{Commit, latest}
use kafka_cad.Api.Common.{object_of}

-- The object as the log has it at the offset, where it was not deleted.
abbrev pub object_at : ℤ → String → List Commit → String → Option ObjectMsg
object_at offset file log id = object_of (latest offset file id log)

abbrev pub is_missing : Option ObjectMsg → Bool
is_missing none = true
is_missing (some _) = false

abbrev pub any_missing : List (Option ObjectMsg) → Bool
any_missing [] = false
any_missing (o ∷ os) = is_missing o || any_missing os

abbrev pub present : List (Option ObjectMsg) → List ObjectMsg
present [] = []
present (none ∷ os) = present os
present (some obj ∷ os) = obj ∷ present os

-- What is answered of the objects: all that are there, or an error where all are needed.
abbrev pub needed : Bool → List (Option ObjectMsg) → Result Code (List ObjectMsg)
needed error_on_missing os =
    if error_on_missing && any_missing os then err not_found else ok (present os)
