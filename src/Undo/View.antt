-- ===== src/Undo/View.antt =====
-- When the database holds what the model of Spec.antt says, and what the writes of
-- undo/src/cache.rs keep of that.
use kafka_cad.Prelude.{
  String, ◌≡◌, refl, sym, ap, ◌∙◌, false, Option, none, some, List, [], ◌∷◌, ◌++◌, map, get_last?,
  Eq, string_eq, nat_eq, ◌==◌, ==_refl, Eq-cases, Bool-cases, inl, inr, arith, if◌then◌else◌,
}
use kafka_cad.Prelude.Text.{NoColon}
use kafka_cad.Prelude.Result.{Result, ok, err}
use kafka_cad.Redis.{remove_first, encode_injective}
use kafka_cad.Undo.{
  UndoError, no_undo_event, UndoEntry, Services, undo_stack, redo_stack, find_entry, decode_entries,
  get_current_event_in_stack,
}
use kafka_cad.Undo.Spec.{
  Model, put_at, drop_entry, Side, undo_side, redo_side, stack_of, with_stack,
}
use kafka_cad.Undo.Names.{
  AreNames, stack_key, is_same, stack_key-ne-event, undo_stack-ne-redo_stack, get_last?-map,
  map-concat,
}

module _ {Blob : Type 0} ⦃e : Eq Blob⦄ (s : Services Blob) where
  -- The database holds what the model says of one user of one file.
  pub record Represents (file user : String) (db : s.Db) (m : Model) : Type 0 where
    pub stacks :
        (side : Side)
        → s.lrange db (stack_key file user side) ≡ map s.texts.encode (stack_of side m)
    pub events :
        (event : String) → NoColon event → s.lrange db event ≡ map s.entries.encode (m.events event)
    pub names : (side : Side) → AreNames (stack_of side m)

  pub decode_entries-map :
      (es : List UndoEntry) → decode_entries s (map s.entries.encode es) ≡ ok es
  unfolding decode_entries
  decode_entries-map [] = refl
  decode_entries-map (x ∷ es) = rw (s.entries.decode-encode x, decode_entries-map es)

  pub remove_first-entry :
      (obj_id : String) (es : List UndoEntry) (entry : UndoEntry)
      → find_entry obj_id es ≡ some entry
      → remove_first (s.entries.encode entry) (map s.entries.encode es)
        ≡ map s.entries.encode (drop_entry obj_id es)
  unfolding find_entry drop_entry
  remove_first-entry obj_id [] entry h = cc
  remove_first-entry obj_id (x ∷ es) entry h = elim (Bool-cases (x.obj_id == obj_id)) [
    | inl t ↦ let q : x ≡ entry = ground arith in rw (t, ← q, ==_refl (s.entries.encode x))
    | inr t ↦
        let there : find_entry obj_id es ≡ some entry = ground arith in
        elim (Eq-cases (s.entries.encode x) (s.entries.encode entry)) [
          | inl (_, q) ↦ absurd (
              found_other es entry there (
                ap (λ (y : UndoEntry). y.obj_id == obj_id)
                  (sym (encode_injective s.entries x entry q))
                ∙ t))
          | inr (t', _) ↦
              rw (t, t') (ap (◌∷◌ (s.entries.encode x)) (remove_first-entry obj_id es entry there))
        ]
  ]
    where
      found_other :
          (es : List UndoEntry) (entry : UndoEntry)
          → find_entry obj_id es ≡ some entry
          → (entry.obj_id == obj_id) ≡ false
          → ⊥
      found_other [] entry p n = cc p
      found_other (y ∷ es) entry p n = elim (Bool-cases (y.obj_id == obj_id)) [
        | inl t ↦
            let q : y ≡ entry = ground arith in
            cc (sym t ∙ ap (λ (y : UndoEntry). y.obj_id == obj_id) q ∙ n)
        | inr t ↦ found_other es entry (ground arith) n
      ]

  module _ (file user : String) where
    pub current_event :
        (side : Side) (db : s.Db) (m : Model)
        → Represents file user db m
        → get_current_event_in_stack s file user (stack_key file user side) db
          ≡ (elim (get_last? (stack_of side m)) [
            | none ↦ (err (no_undo_event user file), db)
            | some event ↦ (ok event, db)
          ])
    unfolding get_current_event_in_stack
    current_event side db m r =
        let last =
          s.lindex_last_lem db (stack_key file user side)
          ∙ ap get_last? (r.stacks side)
          ∙ get_last?-map s.texts.encode (stack_of side m) in
        rw (last, get_current_event_in_stack) (go (get_last? (stack_of side m)))
      where
        go :
            (o : Option String)
            → (
              elim (elim o as (λ _. Option Blob) [ none ↦ none | some x ↦ some (s.texts.encode x) ])
                  as (λ _. Result UndoError String) [
                    | none ↦ err (no_undo_event user file)
                    | some value ↦ elim (s.texts.decode value) [
                      | none ↦ err UndoError.database_error
                      | some event ↦ ok event
                    ]
                  ],
              db,
            )
              ≡ (elim o as (λ _. Result UndoError String × s.Db) [
                | none ↦ (err (no_undo_event user file), db)
                | some event ↦ (ok event, db)
              ])
        go none = refl
        go (some event) = rw (s.texts.decode-encode event)

    pub append_Represents :
        (event : String) (entry : UndoEntry) (db : s.Db) (m : Model)
        → NoColon event
        → Represents file user db m
        → Represents file user
            (s.rpush event (s.entries.encode entry) db)
            (record m { events = put_at m.events event (m.events event ++ entry ∷ []) })
    append_Represents event entry db m h r = record {
      stacks = λ side. s.lrange-rpush db event _ _ ∙ rw (apart side) (at_side side);
      events = λ ev k. s.lrange-rpush db event ev _ ∙ at_event ev k;
      names = names_of;
    }
      where
        apart : (side : Side) → (event == stack_key file user side) ≡ false
        apart side = elim (Eq-cases event (stack_key file user side)) [
          | inl (_, p) ↦ absurd (stack_key-ne-event file user event side h p)
          | inr (t, _) ↦ t
        ]

        at_side :
            (side : Side)
            → s.lrange db (stack_key file user side)
              ≡ map s.texts.encode (
                  stack_of side
                    (record m { events = put_at m.events event (m.events event ++ entry ∷ []) }))
        at_side undo_side = r.stacks undo_side
        at_side redo_side = r.stacks redo_side

        at_event :
            (ev : String)
            → NoColon ev
            → (if event == ev
                then s.lrange db ev ++ s.entries.encode entry ∷ []
                else s.lrange db ev)
              ≡ map s.entries.encode (put_at m.events event (m.events event ++ entry ∷ []) ev)
        at_event ev k = elim (Eq-cases event ev) [
          | inl (t, p) ↦
              rw (t, p)
                (ap (λ l. l ++ s.entries.encode entry ∷ []) (r.events ev k)
                  ∙ sym (map-concat s.entries.encode (m.events ev) entry))
          | inr (t, _) ↦ rw t (r.events ev k)
        ]

        names_of :
            (side : Side)
            → AreNames (
                stack_of side
                  (record m { events = put_at m.events event (m.events event ++ entry ∷ []) }))
        names_of undo_side = r.names undo_side
        names_of redo_side = r.names redo_side

    pub drop_Represents :
        (event obj_id : String) (entry : UndoEntry) (db : s.Db) (m : Model)
        → NoColon event
        → Represents file user db m
        → find_entry obj_id (m.events event) ≡ some entry
        → Represents file user
            (s.lrem event (s.entries.encode entry) db)
            (record m { events = put_at m.events event (drop_entry obj_id (m.events event)) })
    drop_Represents event obj_id entry db m h r found = record {
      stacks = λ side. s.lrange-lrem db event _ _ ∙ rw (apart side) (at_side side);
      events = λ ev k. s.lrange-lrem db event ev _ ∙ at_event ev k;
      names = names_of;
    }
      where
        apart : (side : Side) → (event == stack_key file user side) ≡ false
        apart side = elim (Eq-cases event (stack_key file user side)) [
          | inl (_, p) ↦ absurd (stack_key-ne-event file user event side h p)
          | inr (t, _) ↦ t
        ]

        at_side :
            (side : Side)
            → s.lrange db (stack_key file user side)
              ≡ map s.texts.encode (
                  stack_of side (record m {
                    events = put_at m.events event (drop_entry obj_id (m.events event));
                  }))
        at_side undo_side = r.stacks undo_side
        at_side redo_side = r.stacks redo_side

        at_event :
            (ev : String)
            → NoColon ev
            → (if event == ev
                then remove_first (s.entries.encode entry) (s.lrange db ev)
                else s.lrange db ev)
              ≡ map s.entries.encode (put_at m.events event (drop_entry obj_id (m.events event)) ev)
        at_event ev k = elim (Eq-cases event ev) [
          | inl (t, p) ↦ rw t (
              ap (remove_first (s.entries.encode entry))
                (ap (s.lrange db) (sym p) ∙ r.events event h)
              ∙ remove_first-entry obj_id (m.events event) entry found)
          | inr (t, _) ↦ rw t (r.events ev k)
        ]

        names_of :
            (side : Side)
            → AreNames (
                stack_of side (record m {
                  events = put_at m.events event (drop_entry obj_id (m.events event));
                }))
        names_of undo_side = r.names undo_side
        names_of redo_side = r.names redo_side

    pub stack_key-beq :
        (a b : Side) → (stack_key file user a == stack_key file user b) ≡ is_same a b
    stack_key-beq undo_side undo_side = ==_refl (undo_stack file user)
    stack_key-beq redo_side redo_side = ==_refl (redo_stack file user)
    stack_key-beq undo_side redo_side =
        elim (Eq-cases (undo_stack file user) (redo_stack file user)) [
          | inl (_, p) ↦ absurd (undo_stack-ne-redo_stack file user p)
          | inr (t, _) ↦ t
        ]
    stack_key-beq redo_side undo_side =
        elim (Eq-cases (redo_stack file user) (undo_stack file user)) [
          | inl (_, p) ↦ absurd (undo_stack-ne-redo_stack file user (sym p))
          | inr (t, _) ↦ t
        ]

    -- Another list of names on one side.
    pub with_stack-Represents :
        (from : Side) (names : List String) (db db' : s.Db) (m : Model)
        → Represents file user db m
        → AreNames names
        → ((j : String)
            → s.lrange db' j
              ≡ (if stack_key file user from == j then map s.texts.encode names else s.lrange db j))
        → Represents file user db' (with_stack from names m)
    with_stack-Represents from names db db' m r h new = record {
      stacks = λ side. new _ ∙ rw (stack_key-beq from side) (at_side from side);
      events = λ ev k. new ev ∙ rw (apart ev k) (at_event from ev k);
      names = names_of from;
    }
      where
        apart : (ev : String) → NoColon ev → (stack_key file user from == ev) ≡ false
        apart ev k = elim (Eq-cases (stack_key file user from) ev) [
          | inl (_, p) ↦ absurd (stack_key-ne-event file user ev from k (sym p))
          | inr (t, _) ↦ t
        ]

        at_side :
            (a side : Side)
            → (if is_same a side
                then map s.texts.encode names
                else s.lrange db (stack_key file user side))
              ≡ map s.texts.encode (stack_of side (with_stack a names m))
        at_side undo_side undo_side = refl
        at_side redo_side redo_side = refl
        at_side undo_side redo_side = r.stacks redo_side
        at_side redo_side undo_side = r.stacks undo_side

        at_event :
            (a : Side) (ev : String)
            → NoColon ev
            → s.lrange db ev ≡ map s.entries.encode ((with_stack a names m).events ev)
        at_event undo_side ev k = r.events ev k
        at_event redo_side ev k = r.events ev k

        names_of : (a side : Side) → AreNames (stack_of side (with_stack a names m))
        names_of undo_side undo_side = h
        names_of redo_side redo_side = h
        names_of undo_side redo_side = r.names redo_side
        names_of redo_side undo_side = r.names undo_side
