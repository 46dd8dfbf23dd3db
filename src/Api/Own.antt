-- ===== src/Api/Own.antt =====
-- A request of the API submits only for its own prefix.
pub mod Same
use kafka_cad.Prelude.{
  String, ◌≡◌, refl, Bool, true, false, Option, none, some, List, [], ◌∷◌, ◌++◌, map, ◌⊎◌, inl, inr,
  if◌then◌else◌, ◌∙◌, ap,
}
use kafka_cad.Prelude.Int.{ℤ}
use kafka_cad.Prelude.Result.{Result, ok, err}
use kafka_cad.Prelude.Exec.{Exec, continue, ◌>>=◌, pure}
use kafka_cad.Status.{Code}
use kafka_cad.State.{ObjectMsg, ChangeType, ChangeSource, user_action, ChangeMsg}
use kafka_cad.Operations.Geom.{Point2f, Point3f}
use kafka_cad.Operations.Server.{WallMsg}
use kafka_cad.Operations.Convert.{ViewTypeMsg}
use kafka_cad.Submit.Server.{SubmitChangesInput}
use kafka_cad.Api.{OpPrefixMsg, Services, Request, Response, created, submitted}
use kafka_cad.Api.Common
use kafka_cad.Api.Common.{
  add, modify, delete, client, undo_client, submit_client, objects_client, operations_client,
}
use kafka_cad.Api.Handlers
use kafka_cad.Api.Handlers.{
  Prefix, new, modified, ops_wall, ops_view, submit, join_pair, add_created, handle,
}

-- Every change is a user action of the user.
abbrev pub AreActions : String → List ChangeMsg → Type 0
AreActions user [] = Unit {0}
AreActions user (change ∷ changes) =
    (change.user ≡ user) × (change.change_source ≡ some user_action) × AreActions user changes

abbrev pub prefix_of : {F : Type 0} → Request F → Option OpPrefixMsg
prefix_of (Request.begin_undo_event file user) = none
prefix_of (Request.undo_latest prefix) = prefix
prefix_of (Request.redo_latest prefix) = prefix
prefix_of (Request.create_walls prefix walls) = prefix
prefix_of (Request.move_objects prefix obj_ids delta) = prefix
prefix_of (Request.join_objects_at_point prefix first_id second_id guess) = prefix
prefix_of (Request.delete_objects prefix obj_ids) = prefix
prefix_of (Request.create_sheet prefix name print_size) = prefix
prefix_of (Request.create_viewport prefix sheet_id view_type origin scale) = prefix

-- Whether the changes come from the undo service.
abbrev pub takes_back : {F : Type 0} → Request F → Bool
takes_back (Request.undo_latest prefix) = true
takes_back (Request.redo_latest prefix) = true
takes_back _ = false

-- A submission for the prefix, of user actions by its user unless the undo service made it.
abbrev pub IsOwn : Option OpPrefixMsg → Bool → SubmitChangesInput → Type 0
IsOwn none back input = ⊥
IsOwn (some prefix) back input =
    (input.file ≡ prefix.file)
    × (input.user ≡ prefix.user)
    × (input.offset ≡ prefix.offset)
    × ((back ≡ true) ⊎ AreActions prefix.user input.changes)

abbrev pub with_submit :
    {F Rep W : Type 0}
    → Services F Rep W
    → (SubmitChangesInput → Exec W Code (List ℤ))
    → Services F Rep W
with_submit services other = record services { submit_changes = other }

pub add-AreActions :
    (user : String) (objects : List ObjectMsg) → AreActions user (map (add user) objects)
unfolding add
add-AreActions user [] = tt
add-AreActions user (obj ∷ objects) = (refl, refl, add-AreActions user objects)

pub modify-AreActions :
    (user : String) (objects : List ObjectMsg) → AreActions user (map (modify user) objects)
unfolding modify
modify-AreActions user [] = tt
modify-AreActions user (obj ∷ objects) = (refl, refl, modify-AreActions user objects)

pub delete-AreActions :
    (user : String) (ids : List String) → AreActions user (map (delete user) ids)
unfolding delete
delete-AreActions user [] = tt
delete-AreActions user (id ∷ ids) = (refl, refl, delete-AreActions user ids)

pub modified-AreActions :
    (user : String) (first second : Option ObjectMsg)
    → AreActions user (modified user first ++ modified user second)
unfolding modify
modified-AreActions user none none = tt
modified-AreActions user none (some b) = (refl, refl, tt)
modified-AreActions user (some a) none = (refl, refl, tt)
modified-AreActions user (some a) (some b) = (refl, refl, (refl, refl, tt))

-- Two continuations that agree on every value and state.
continue_cong :
    {S E A B : Type 0} (r : Result E A) (f g : A → Exec S E B) (s : S)
    → ((a : A) → f a s ≡ g a s)
    → continue r f s ≡ continue r g s
continue_cong (ok a) f g s h = h a
continue_cong (err e) f g s h = refl

pub bind_cong :
    {S E A B : Type 0} (m : Exec S E A) (f g : A → Exec S E B) (s : S)
    → ((a : A) (t : S) → f a t ≡ g a t)
    → (m >>= f) s ≡ (m >>= g) s
bind_cong m f g s h = continue_cong (m s).0 f g (m s).1 (λ a. h a (m s).1)

pub bind_same :
    {S E A B : Type 0} {r r' : Result E A × S} (f : A → Exec S E B)
    → r ≡ r'
    → continue r.0 f r.1 ≡ continue r'.0 f r'.1
bind_same f p = ap (λ r. continue r.0 f r.1) p

-- Two services that differ in submit_changes, and there only at what is not the request's own.
module _ {F Rep W : Type 0} (services : Services F Rep W)
    (other : SubmitChangesInput → Exec W Code (List ℤ)) (prefix : OpPrefixMsg) (back : Bool)
    (same : (input : SubmitChangesInput) (w : W)
      → IsOwn (some prefix) back input
      → services.submit_changes input w ≡ other input w) where
  abbrev pub own : Prefix
  own = record { file = prefix.file; user = prefix.user; offset = prefix.offset }

  abbrev pub Agree : {A : Type 0} → (Services F Rep W → Exec W Code A) → W → Type 0
  Agree f w = f services w ≡ f (with_submit services other) w

  pub submit_agrees :
      (changes : List ChangeMsg) (w : W)
      → (back ≡ true) ⊎ AreActions prefix.user changes
      → Agree (λ v. submit v own changes) w
  unfolding submit
  submit_agrees changes w h =
      ap (λ r. continue r.0 Common.last_offset r.1) (same _ w (refl, refl, refl, h))

  pub common_agrees :
      (changes : List ChangeMsg) (w : W)
      → AreActions prefix.user changes
      → Agree (λ v. Common.submit_changes v prefix.file prefix.user prefix.offset changes) w
  unfolding Common.submit_changes
  common_agrees [] w h = refl
  common_agrees (change ∷ changes) w h =
      ap (λ r. continue r.0 Common.last_offset r.1) (same _ w (refl, refl, refl, inr h))

  pub add_created_agrees :
      (object : Option ObjectMsg) (w : W) → Agree (λ v. add_created v own object) w
  unfolding add_created add
  add_created_agrees none w = refl
  add_created_agrees (some obj) w =
      bind_same (λ offset. pure (created (obj.id ∷ []) offset))
        (submit_agrees (add prefix.user obj ∷ []) w (inr (refl, refl, tt)))

  -- What follows the submission of a list of changes.
  pub submitted_agrees :
      (changes : List ChangeMsg) (w : W)
      → (back ≡ true) ⊎ AreActions prefix.user changes
      → Agree (λ v. submit v own changes >>= λ offset. pure (submitted offset)) w
  submitted_agrees changes w h =
      bind_same (λ offset. pure (submitted offset)) (submit_agrees changes w h)

  pub common_submitted_agrees :
      (changes : List ChangeMsg) (w : W)
      → AreActions prefix.user changes
      → Agree
          (λ v. Common.submit_changes v prefix.file prefix.user prefix.offset changes >>= λ offset.
            pure (submitted offset))
          w
  common_submitted_agrees changes w h =
      bind_same (λ offset. pure (submitted offset)) (common_agrees changes w h)
