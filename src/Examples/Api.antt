-- ===== src/Examples/Api.antt =====
-- The other services in memory, and the theorems on the API at requests of bob.
use kafka_cad.Prelude.{
  String, ◌≡◌, refl, true, false, none, some, List, [], ◌∷◌, length, string_eq, ◌==◌, if◌then◌else◌,
}
use kafka_cad.Prelude.Int.{ℤ, pos}
use kafka_cad.Prelude.Result.{ok, err, map_err}
use kafka_cad.Prelude.Exec.{Exec, pure}
use kafka_cad.Status
use kafka_cad.Status.{Code}
use kafka_cad.Objects.{ObjError, get_objects}
use kafka_cad.Objects.History.{consume}
use kafka_cad.Operations.Server
use kafka_cad.Submit.Server.{SubmitChangesInput}
use kafka_cad.Api.{OpPrefixMsg, Services, Request, delete_objects}
use kafka_cad.Api.Common
use kafka_cad.Api.Handlers.{handle}
use kafka_cad.Api.Own.{IsOwn, with_submit}
use kafka_cad.Api.Own.Same
use kafka_cad.Api.Reads
use kafka_cad.Examples.Server.{empty}
use kafka_cad.Examples.Blobs.{blob_eq}
use kafka_cad.Examples.Objects.{services, log}
use kafka_cad.Examples.Wall.{floats}
use kafka_cad.Examples.Boxes.{packages}

-- What was submitted, the last first.
abbrev Submissions : Type 0
Submissions = List SubmitChangesInput

abbrev to_code : ObjError → Code
to_code error = Status.internal

abbrev submit : SubmitChangesInput → Exec Submissions Code (List ℤ)
submit input w = (ok (pos (length w) ∷ []), input ∷ w)

abbrev others : Services floats.F String Submissions
others = record {
  connect = λ service w. (true, w);
  begin_undo_event = λ file user. pure tt;
  undo_latest = λ file user. pure [];
  redo_latest = λ file user. pure [];
  submit_changes = submit;
  get_objects =
      λ input w. (map_err to_code (get_objects services input (consume services log empty)), w);
  get_latest_object_list = λ file. pure (ok "wall" ∷ []);
  get_object_representations = λ file ids. pure ids;
  create_walls = λ walls w. (Server.create_walls packages (λ index. "wall") walls, w);
  move_objects = λ objects delta w. (Server.move_objects packages objects delta, w);
  join_objects = λ first second first_wants second_wants guess. pure (first, second);
  create_sheet = λ sheet. pure none;
  create_viewport = λ viewport. pure none;
}

abbrev by_bob : OpPrefixMsg
by_bob = record { file = "house"; user = "bob"; offset = pos 5 }

-- A submit service that refuses everybody but bob.
abbrev only_bob : SubmitChangesInput → Exec Submissions Code (List ℤ)
only_bob input w = if input.user == "bob" then submit input w else (err Status.aborted, w)

abbrev request : Request floats.F
request = delete_objects (some by_bob) ("wall" ∷ [])

same :
    (input : SubmitChangesInput) (w : Submissions)
    → IsOwn (some by_bob) false input
    → submit input w ≡ only_bob input w
same input w own = rw own.1 refl

handle-own_example : handle others request [] ≡ handle (with_submit others only_bob) request []
handle-own_example = Same.handle-own others only_bob request same []
