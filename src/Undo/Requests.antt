-- ===== src/Undo/Requests.antt =====
-- `undo` and `redo` of undo/src/cache.rs implement the model of Spec.antt.
use kafka_cad.Prelude.{
  String, ◌≡◌, refl, ap, ◌∙◌, sym, List, [], ◌∷◌, ◌++◌, map, get_last?, Eq, string_eq, ◌==◌,
  Eq-cases, Option-cases, inl, inr, if◌then◌else◌,
}
use kafka_cad.Prelude.Text.{NoColon}
use kafka_cad.Prelude.Exec.{◌>>=◌, ◌>>◌, pure}
use kafka_cad.Undo.{
  Services, get_event_entries, push_event_to_stack, begin_event, begin_undo_event, begin_redo_event,
  get_current_event_and_list, undo_latest, redo_latest,
}
use kafka_cad.Undo.Spec.{Model, Side, undo_side, redo_side, stack_of, with_stack, begin_round}
use kafka_cad.Undo.Names.{AreNames, stack_key, map-concat, AreNames-last}
use kafka_cad.Undo.View.{Represents, decode_entries-map, with_stack-Represents}
use kafka_cad.Undo.Refines.{Implements, current_none, current_some}

AreNames-concat :
    (names : List String) (name : String)
    → AreNames names
    → NoColon name
    → AreNames (names ++ name ∷ [])
AreNames-concat [] name h k = (k, tt)
AreNames-concat (x ∷ names) name (h, hs) k = (h, AreNames-concat names name hs k)

module _ {Blob : Type 0} ⦃e : Eq Blob⦄ (s : Services Blob) (file user : String) where
  pushed_list :
      (to : Side) (fresh : String) (db : s.Db) (m : Model)
      → Represents s file user db m
      → (j : String)
      → (if stack_key file user to == j
          then s.lrange db j ++ s.texts.encode fresh ∷ []
          else s.lrange db j)
        ≡ (if stack_key file user to == j
            then map s.texts.encode (stack_of to m ++ fresh ∷ [])
            else s.lrange db j)
  pushed_list to fresh db m r j = elim (Eq-cases (stack_key file user to) j) [
    | inl (t, p) ↦ rw t (
        ap (λ l. l ++ s.texts.encode fresh ∷ []) (ap (s.lrange db) (sym p) ∙ r.stacks to)
        ∙ sym (map-concat s.texts.encode (stack_of to m) fresh))
    | inr (t, _) ↦ rw t
  ]

  pub push_Represents :
      (to : Side) (fresh : String) (db : s.Db) (m : Model)
      → NoColon fresh
      → Represents s file user db m
      → Represents s file user
          (s.rpush (stack_key file user to) (s.texts.encode fresh) db)
          (with_stack to (stack_of to m ++ fresh ∷ []) m)
  push_Represents to fresh db m h r =
      with_stack-Represents s file user to _ db _ m r (AreNames-concat _ fresh (r.names to) h)
        (λ j. s.lrange-rpush db _ j _ ∙ pushed_list to fresh db m r j)

  round_lem :
      (from to : Side) (fresh : String) (db : s.Db) (m : Model)
      → NoColon fresh
      → Represents s file user db m
      → Implements s file user
          ((get_current_event_and_list s file user (stack_key file user from) >>= λ results.
              begin_event s fresh (stack_key file user to) >> pure results)
            db)
          (begin_round file user from to fresh m)
  unfolding get_current_event_and_list get_event_entries begin_event push_event_to_stack begin_round
  round_lem from to fresh db m h r = elim (Option-cases (get_last? (stack_of from m))) [
    | inl empty ↦
        rw
          (
            current_none s file user from db m r empty,
            empty,
            get_current_event_and_list,
            begin_round,
          )
          (record { answer = refl; kept = r })
    | inr (event, top) ↦
        rw
          (
            current_some s file user from event db m r top,
            top,
            r.events event (AreNames-last (stack_of from m) event (r.names from) top),
            decode_entries-map s (m.events event),
            get_current_event_and_list,
            begin_round,
          )
          (record { answer = refl; kept = push_Represents to fresh db m h r })
  ]

  -- On a database that represents a user's stacks and events, undo gives the answer of the model
  -- (the top undo event with its entries, or NoUndoEvent) and leaves a database that represents the
  -- model after it (the new event, whose name holds no colon, on top of the redo stack).
  pub undo_latest-Implements :
      (fresh : String) (db : s.Db) (m : Model)
      → NoColon fresh
      → Represents s file user db m
      → Implements s file user
          (undo_latest s fresh file user db)
          (begin_round file user undo_side redo_side fresh m)
  unfolding undo_latest begin_redo_event
  undo_latest-Implements fresh db m h r = round_lem undo_side redo_side fresh db m h r

  -- The same of redo, with the two sides exchanged.
  pub redo_latest-Implements :
      (fresh : String) (db : s.Db) (m : Model)
      → NoColon fresh
      → Represents s file user db m
      → Implements s file user
          (redo_latest s fresh file user db)
          (begin_round file user redo_side undo_side fresh m)
  unfolding redo_latest begin_undo_event
  redo_latest-Implements fresh db m h r = round_lem redo_side undo_side fresh db m h r
