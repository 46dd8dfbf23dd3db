-- ===== src/Undo/Refines.antt =====
-- The handlers of undo/src/cache.rs implement the model of Spec.antt.
use kafka_cad.Prelude.{
  String, ◌≡◌, refl, sym, ap, ◌∙◌, subst, Option, none, some, List, [], ◌∷◌, map, get_last?, Eq,
  string_eq, nat_eq, ◌==◌, Eq-cases, Option-cases, inl, inr, arith, if◌then◌else◌,
}
use kafka_cad.Prelude.Int.{ℤ}
use kafka_cad.Prelude.Text.{NoColon}
use kafka_cad.Prelude.Result.{Result, ok, err}
use kafka_cad.State.{ChangeType, ChangeSource, user_action, undo, redo, ChangeMsg}
use kafka_cad.Redis.{remove_first, remove_first-map}
use kafka_cad.Undo.{
  UndoError, no_undo_event, no_obj_in_undo_event, UndoEntry, Services, find_entry, entry_kind,
  get_event_entries, add_entry_to_event, delete_event_if_empty, remove_found, pop_entry_from_event,
  get_current_event_in_stack, update_event_in_stack, move_entry_between_stacks,
  update_undo_cache_inner,
}
use kafka_cad.Undo.Spec.{
  Model, put_at, put_at_self, without_empty, Side, undo_side, redo_side, stack_of, with_stack,
  append_entry, take_out, move_entry, apply_change,
}
use kafka_cad.Undo.Names.{stack_key, AreNames-last, AreNames-remove_first}
use kafka_cad.Undo.View.{
  Represents, decode_entries-map, current_event, append_Represents, drop_Represents,
  with_stack-Represents,
}

module _ {Blob : Type 0} ⦃e : Eq Blob⦄ (s : Services Blob) (file user : String) where
  -- The handler's answer and database are those of the model.
  pub record Implements {A : Type 0} (run : Result UndoError A × s.Db)
      (spec : Result UndoError A × Model) : Type 0 where
    pub answer : run.0 ≡ spec.0
    pub kept : Represents s file user run.1 spec.1

  pub current_none :
      (side : Side) (db : s.Db) (m : Model)
      → Represents s file user db m
      → get_last? (stack_of side m) ≡ none
      → get_current_event_in_stack s file user (stack_key file user side) db
        ≡ (err (no_undo_event user file), db)
  current_none side db m r empty = rw empty at (current_event s file user side db m r)

  pub current_some :
      (side : Side) (event : String) (db : s.Db) (m : Model)
      → Represents s file user db m
      → get_last? (stack_of side m) ≡ some event
      → get_current_event_in_stack s file user (stack_key file user side) db ≡ (ok event, db)
  current_some side event db m r top = rw top at (current_event s file user side db m r)

  append_lem :
      (to : Side) (entry : UndoEntry) (db : s.Db) (m : Model)
      → Represents s file user db m
      → Implements
          (update_event_in_stack s file user
            (stack_key file user to)
            entry.offset
            entry.obj_id
            entry.change_type
            db)
          (append_entry file user to entry m)
  unfolding update_event_in_stack append_entry add_entry_to_event
  append_lem to entry db m r = elim (Option-cases (get_last? (stack_of to m))) [
    | inl empty ↦
        rw (current_none to db m r empty, empty, append_entry, update_event_in_stack)
          (record { answer = refl; kept = r })
    | inr (event, top) ↦
        rw (current_some to event db m r top, top, append_entry, update_event_in_stack)
          (record {
            answer = refl;
            kept =
                append_Represents s file user event entry db m
                  (AreNames-last (stack_of to m) event (r.names to) top) r;
          })
  ]

  popped_list :
      (from : Side) (event : String) (db : s.Db) (m : Model)
      → Represents s file user db m
      → (j : String)
      → (if stack_key file user from == j
          then remove_first (s.texts.encode event) (s.lrange db j)
          else s.lrange db j)
        ≡ (if stack_key file user from == j
            then map s.texts.encode (remove_first event (stack_of from m))
            else s.lrange db j)
  popped_list from event db m r j = elim (Eq-cases (stack_key file user from) j) [
    | inl (t, p) ↦ rw t (
        ap (remove_first (s.texts.encode event)) (ap (s.lrange db) (sym p) ∙ r.stacks from)
        ∙ remove_first-map s.texts event (stack_of from m))
    | inr (t, _) ↦ rw t
  ]

  same_stack :
      (a : Side) (db : s.Db) (m : Model)
      → Represents s file user db m
      → Represents s file user db (with_stack a (stack_of a m) m)
  same_stack undo_side db m r = r
  same_stack redo_side db m r = r

  -- delete_event_if_empty on a stack that holds the event or not.
  clear_lem :
      (from : Side) (event : String) (db : s.Db) (m : Model)
      → NoColon event
      → Represents s file user db m
      → (db' : s.Db) × (delete_event_if_empty s (stack_key file user from) event db ≡ (ok tt, db'))
        × Represents s file user db'
            (with_stack from (without_empty (m.events event) event (stack_of from m)) m)
  unfolding delete_event_if_empty
  clear_lem from event db m h r = go (m.events event) (r.events event h)
    where
      go :
          (es : List UndoEntry)
          → s.lrange db event ≡ map s.entries.encode es
          → (db' : s.Db) × (delete_event_if_empty s (stack_key file user from) event db
              ≡ (ok tt, db'))
            × Represents s file user db'
                (with_stack from (without_empty es event (stack_of from m)) m)
      go [] p = (
        s.lrem (stack_key file user from) (s.texts.encode event) db,
        rw (s.llen_lem db event, p, delete_event_if_empty),
        with_stack-Represents s file user from _ db _ m r
            (AreNames-remove_first event _ (r.names from))
            (λ j. s.lrange-lrem db _ j _ ∙ popped_list from event db m r j),
      )
      go (x ∷ es) p = (
        db,
        rw (s.llen_lem db event, p, delete_event_if_empty) (ground arith),
        same_stack from db m r,
      )

  settle :
      (from : Side) (event : String) (rest : List UndoEntry) (db : s.Db) (m : Model)
      → (let m' = record m { events = put_at m.events event rest } in
          Represents s file user db
            (with_stack from (without_empty (m'.events event) event (stack_of from m')) m'))
      → Represents s file user db (
          with_stack from
            (without_empty rest event (stack_of from m))
            (record m { events = put_at m.events event rest }))
  settle undo_side event rest db m k =
      subst
        (λ l. Represents s file user db (
          with_stack undo_side (without_empty l event m.undos)
            (record m { events = put_at m.events event rest })))
        (put_at_self m.events event rest) k
  settle redo_side event rest db m k =
      subst
        (λ l. Represents s file user db (
          with_stack redo_side (without_empty l event m.redos)
            (record m { events = put_at m.events event rest })))
        (put_at_self m.events event rest) k

  take_out_lem :
      (from : Side) (event obj_id : String) (entry : UndoEntry) (db : s.Db) (m : Model)
      → NoColon event
      → Represents s file user db m
      → find_entry obj_id (m.events event) ≡ some entry
      → (db₁ db' : s.Db) × (pop_entry_from_event s file event obj_id db ≡ (ok entry, db₁))
        × (delete_event_if_empty s (stack_key file user from) event db₁ ≡ (ok tt, db'))
        × Represents s file user db' (take_out file user from event obj_id m)
  unfolding pop_entry_from_event get_event_entries take_out
  take_out_lem from event obj_id entry db m h r found =
      let popped = drop_Represents s file user event obj_id entry db m h r found in
      let (db', cleared, kept) = clear_lem from event _ _ h popped in
      (
        _,
        db',
        rw (r.events event h, decode_entries-map s (m.events event), found, remove_found),
        cleared,
        settle from event _ db' m kept,
      )

  pop_missing :
      (event obj_id : String) (db : s.Db) (m : Model)
      → NoColon event
      → Represents s file user db m
      → find_entry obj_id (m.events event) ≡ none
      → pop_entry_from_event s file event obj_id db
        ≡ (err (no_obj_in_undo_event obj_id event file), db)
  unfolding pop_entry_from_event get_event_entries
  pop_missing event obj_id db m h r missing =
      rw (r.events event h, decode_entries-map s (m.events event), missing, remove_found)

  move_lem :
      (from to : Side) (event : String) (entry : UndoEntry) (db : s.Db) (m : Model)
      → NoColon event
      → Represents s file user db m
      → Implements
          (move_entry_between_stacks s file user
            (stack_key file user from)
            (stack_key file user to)
            event
            entry.obj_id
            entry.offset
            entry.change_type
            db)
          (move_entry file user from to event entry m)
  unfolding move_entry_between_stacks move_entry
  move_lem from to event entry db m h r =
      elim (Option-cases (find_entry entry.obj_id (m.events event))) [
        | inl missing ↦
            rw
              (
                pop_missing event entry.obj_id db m h r missing,
                missing,
                move_entry,
                move_entry_between_stacks,
              )
              (record { answer = refl; kept = r })
        | inr (old, found) ↦
            let (db₁, db', popped, cleared, kept) =
              take_out_lem from event entry.obj_id old db m h r found in
            rw (popped, cleared, found, move_entry, move_entry_between_stacks)
              (append_lem to entry db' (take_out file user from event entry.obj_id m) kept)
      ]

-- The names of events hold no colon; UUIDs do not.
abbrev pub NamesEvent : Option ChangeSource → Type 0
NamesEvent (some (undo event)) = NoColon event
NamesEvent (some (redo event)) = NoColon event
NamesEvent _ = Unit {0}

-- The entry that a change leaves in an event.
abbrev pub entry_of : ℤ → ChangeMsg → UndoEntry
entry_of offset msg = record {
  offset = offset;
  obj_id = (entry_kind msg.change_type).0;
  change_type = (entry_kind msg.change_type).1;
}

module _ {Blob : Type 0} ⦃e : Eq Blob⦄ (s : Services Blob) (file : String) where
  inner_lem :
      (source : Option ChangeSource) (offset : ℤ) (user : String) (t : Option ChangeType)
      (db : s.Db) (m : Model)
      → NamesEvent source
      → Represents s file user db m
      → (let msg : ChangeMsg = record { user = user; change_type = t; change_source = source } in
          Implements s file user
            (update_undo_cache_inner s file offset msg db)
            (apply_change file user source (entry_of offset msg) m))
  unfolding update_undo_cache_inner apply_change
  inner_lem none offset user t db m h r = record { answer = refl; kept = r }
  inner_lem (some user_action) offset user t db m h r = append_lem s file user undo_side _ db m r
  inner_lem (some (undo event)) offset user t db m h r =
      move_lem s file user undo_side redo_side event _ db m h r
  inner_lem (some (redo event)) offset user t db m h r =
      move_lem s file user redo_side undo_side event _ db m h r

  -- On a database that represents a user's stacks and events, handling a change of that user gives
  -- the answer of the model, an error included, and leaves a database that represents the model
  -- after the change, where the event that the change names holds no colon.
  pub update_undo_cache_inner-Implements :
      (offset : ℤ) (msg : ChangeMsg) (db : s.Db) (m : Model)
      → NamesEvent msg.change_source
      → Represents s file msg.user db m
      → Implements s file msg.user
          (update_undo_cache_inner s file offset msg db)
          (apply_change file msg.user msg.change_source (entry_of offset msg) m)
  update_undo_cache_inner-Implements offset msg db m h r =
      inner_lem msg.change_source offset msg.user msg.change_type db m h r
