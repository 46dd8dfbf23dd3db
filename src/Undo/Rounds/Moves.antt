-- ===== src/Undo/Rounds/Moves.antt =====
-- The entries of an event move, one for one, to the top event of the other stack.
use kafka_cad.Prelude.{
  String, ◌≡◌, ◌≢◌, refl, sym, ap, ◌∙◌, subst, true, some, List, [], ◌∷◌, ◌++◌, get_last?, Eq,
  string_eq, ◌==◌, ==_refl, Eq-cases, inl, inr,
}
use mathlib.Core.List.{append_assoc, append-nil}
use kafka_cad.Prelude.Int.{ℤ}
use kafka_cad.Prelude.Text.{NoColon}
use kafka_cad.Prelude.Result.{Result, ok}
use kafka_cad.Prelude.Exec.{continue}
use kafka_cad.State.{ChangeMsg}
use kafka_cad.Redis.{remove_first}
use kafka_cad.Undo.{UndoError, UndoEntry, Services, find_entry, update_undo_cache_inner}
use kafka_cad.Undo.Spec.{
  Model, put_at, put_at_self, drop_entry, without_empty, Side, undo_side, redo_side, stack_of,
  with_stack, append_entry, take_out, move_entry, apply_change,
}
use kafka_cad.Undo.View.{Represents}
use kafka_cad.Undo.Refines.{Implements, NamesEvent, entry_of, update_undo_cache_inner-Implements}
use kafka_cad.Undo.Rounds.{flip, source_of, TakeBack, handle_all}

-- No name of the list is this one.
abbrev pub IsAbsent : String → List String → Type 0
IsAbsent name [] = Unit {0}
IsAbsent name (x ∷ names) = (x ≢ name) × IsAbsent name names

remove_first-last :
    (name : String) (names : List String)
    → IsAbsent name names
    → remove_first name (names ++ name ∷ []) ≡ names
remove_first-last name [] h = rw (==_refl name)
remove_first-last name (x ∷ names) (h, hs) = elim (Eq-cases x name) [
  | inl (_, p) ↦ absurd (h p)
  | inr (t, _) ↦ rw t (ap (◌∷◌ x) (remove_first-last name names hs))
]

flip-stack :
    (from : Side) (names : List String) (m : Model)
    → stack_of (flip from) (with_stack from names m) ≡ stack_of (flip from) m
flip-stack undo_side names m = refl
flip-stack redo_side names m = refl

own-stack :
    (from : Side) (names : List String) (m : Model)
    → stack_of from (with_stack from names m) ≡ names
own-stack undo_side names m = refl
own-stack redo_side names m = refl

with_stack-events :
    (from : Side) (names : List String) (m : Model) → (with_stack from names m).events ≡ m.events
with_stack-events undo_side names m = refl
with_stack-events redo_side names m = refl

events-stack :
    (a : Side) (m : Model) (events : String → List UndoEntry)
    → stack_of a (record m { events = events }) ≡ stack_of a m
events-stack undo_side m events = refl
events-stack redo_side m events = refl

put_at_away :
    (f : String → List UndoEntry) (k j : String) (v : List UndoEntry) → k ≢ j → put_at f k v j ≡ f j
put_at_away f k j v n = elim (Eq-cases k j) [ inl (_, p) ↦ absurd (n p) | inr (t, _) ↦ rw t ]

-- Between the changes of a round, `left` of the entries are in the event, and `moved` is what has
-- gone to the top event of the other side.
module _ (from : Side) (event fresh : String) (below : List String) (start : Model) where
  abbrev pub own_names : List UndoEntry → List String
  own_names [] = below
  own_names (_ ∷ _) = below ++ event ∷ []

  pub record IsBetween (left moved : List UndoEntry) (m : Model) : Type 0 where
    pub own : stack_of from m ≡ own_names left
    pub other : stack_of (flip from) m ≡ stack_of (flip from) start
    pub here : m.events event ≡ left
    pub there : m.events fresh ≡ start.events fresh ++ moved
    pub apart : (k : String) → event ≢ k → fresh ≢ k → m.events k ≡ start.events k

  module _ (file user : String) (absent : IsAbsent event below) (differ : event ≢ fresh)
      (top : get_last? (stack_of (flip from) start) ≡ some fresh) where
    -- One change.
    move_step :
        (entry new : UndoEntry) (left moved : List UndoEntry) (m : Model)
        → new.obj_id ≡ entry.obj_id
        → IsBetween (entry ∷ left) moved m
        → (m' : Model) × (move_entry file user from (flip from) event new m ≡ (ok tt, m'))
          × IsBetween left (moved ++ new ∷ []) m'
    unfolding move_entry append_entry take_out find_entry drop_entry
    move_step entry new left moved m same b = (
      record out { events = put_at out.events fresh (out.events fresh ++ new ∷ []) },
      rw (found, last, move_entry, append_entry),
      record {
        own =
            events-stack from out _
            ∙ own-stack from _ _
            ∙ ap (λ l. without_empty l event (stack_of from m)) dropped
            ∙ settle left;
        other = events-stack (flip from) out _ ∙ others;
        here =
            put_at_away out.events fresh event _ (λ p. differ (sym p))
            ∙ ap (λ f. f event) emptied
            ∙ put_at_self m.events event _
            ∙ dropped;
        there =
            put_at_self out.events fresh _
            ∙ ap (λ l. l ++ new ∷ [])
                (ap (λ f. f fresh) emptied ∙ put_at_away m.events event fresh _ differ ∙ b.there)
            ∙ append_assoc (start.events fresh) moved (new ∷ []);
        apart = λ k ne nf.
            put_at_away out.events fresh k _ nf
            ∙ ap (λ f. f k) emptied
            ∙ put_at_away m.events event k _ ne
            ∙ b.apart k ne nf;
      },
    )
      where
        beq : (entry.obj_id == new.obj_id) ≡ true
        beq = (string_eq.beq_iff entry.obj_id new.obj_id).1 (sym same)

        found : find_entry new.obj_id (m.events event) ≡ some entry
        found = ap (find_entry new.obj_id) b.here ∙ rw beq

        dropped : drop_entry new.obj_id (m.events event) ≡ left
        dropped = ap (drop_entry new.obj_id) b.here ∙ rw beq

        out : Model
        out = take_out file user from event new.obj_id m

        emptied : out.events ≡ put_at m.events event (drop_entry new.obj_id (m.events event))
        emptied = with_stack-events from _ _

        others : stack_of (flip from) out ≡ stack_of (flip from) start
        others = flip-stack from _ _ ∙ events-stack (flip from) m _ ∙ b.other

        last : get_last? (stack_of (flip from) out) ≡ some fresh
        last = ap get_last? others ∙ top

        settle : (l : List UndoEntry) → without_empty l event (stack_of from m) ≡ own_names l
        settle [] = ap (remove_first event) b.own ∙ remove_first-last event below absent
        settle (_ ∷ _) = b.own

apply_source :
    (from : Side) (file user event : String) (entry : UndoEntry) (m : Model)
    → apply_change file user (some (source_of from event)) entry m
      ≡ move_entry file user from (flip from) event entry m
unfolding apply_change
apply_source undo_side file user event entry m = refl
apply_source redo_side file user event entry m = refl

names_source :
    (from : Side) (event : String) → NoColon event → NamesEvent (some (source_of from event))
names_source undo_side event h = h
names_source redo_side event h = h

-- The entries that the changes leave.
abbrev pub new_entries : List (ℤ × ChangeMsg) → List UndoEntry
new_entries [] = []
new_entries ((offset, msg) ∷ commits) = entry_of offset msg ∷ new_entries commits

module _ {Blob : Type 0} ⦃e : Eq Blob⦄ (s : Services Blob) (file user : String) (from : Side)
    (event fresh : String) (below : List String) (start : Model) where
  -- One change, handled.
  handle_step :
      (offset : ℤ) (msg : ChangeMsg) (db : s.Db) (m : Model) {m' : Model}
      → NoColon event
      → msg.user ≡ user
      → msg.change_source ≡ some (source_of from event)
      → Represents s file user db m
      → move_entry file user from (flip from) event (entry_of offset msg) m ≡ (ok tt, m')
      → Implements s file user (update_undo_cache_inner s file offset msg db) (ok tt, m')
  handle_step offset msg db m h by for_event r moves =
      let run = update_undo_cache_inner s file offset msg db in
      let entry = entry_of offset msg in
      let kept =
        update_undo_cache_inner-Implements s file offset msg db m
          (subst NamesEvent (sym for_event) (names_source from event h))
          (subst (λ u. Represents s file u db m) (sym by) r) in
      subst (Implements s file user run) (apply_source from file user event entry m ∙ moves) (
        subst (λ c. Implements s file user run (apply_change file user c entry m)) for_event
          (subst (λ u. Implements s file u run (apply_change file u msg.change_source entry m)) by
            kept))

  -- What the changes leave: the database represents a model where the event is gone from its stack
  -- and has no entries, the event on top of the other stack has the new entries, and nothing else
  -- differs.
  pub record IsRound (run : Result UndoError (Unit {0}) × s.Db) (moved : List UndoEntry)
      : Type 0 where
    pub succeeds : run.0 ≡ ok tt
    pub model : Model
    pub kept : Represents s file user run.1 model
    pub finished : IsBetween from event fresh below start [] moved model

  commits-IsRound :
      (entries moved : List UndoEntry) (commits : List (ℤ × ChangeMsg)) (db : s.Db) (m : Model)
      → NoColon event
      → IsAbsent event below
      → event ≢ fresh
      → get_last? (stack_of (flip from) start) ≡ some fresh
      → TakeBack from user event entries commits
      → Represents s file user db m
      → IsBetween from event fresh below start entries moved m
      → IsRound (handle_all s file commits db) (moved ++ new_entries commits)
  commits-IsRound [] moved [] db m h absent differ top k r b = record {
    succeeds = refl;
    model = m;
    kept = r;
    finished =
        subst (λ l. IsBetween from event fresh below start [] l m) (sym (append-nil moved)) b;
  }
  commits-IsRound [] moved (_ ∷ _) db m h absent differ top k r b = absurd k
  commits-IsRound (_ ∷ _) moved [] db m h absent differ top k r b = absurd k
  commits-IsRound (entry ∷ entries) moved ((offset, msg) ∷ commits) db m h absent differ top
        (by, for_event, same, ks) r b =
      let (m', moves, b') =
        move_step from event fresh below start file user absent differ top entry
          (entry_of offset msg) entries moved m same b in
      let done = handle_step offset msg db m h by for_event r moves in
      let rest =
        commits-IsRound entries (moved ++ entry_of offset msg ∷ []) commits _ m' h absent differ top
          ks done.kept b' in
      let run = update_undo_cache_inner s file offset msg db in
      let goes : handle_all s file ((offset, msg) ∷ commits) db ≡ handle_all s file commits run.1 =
        ap (λ r. continue r (λ _. handle_all s file commits) run.1) done.answer in
      subst (λ q. IsRound q (moved ++ entry_of offset msg ∷ new_entries commits)) (sym goes)
        (subst (IsRound (handle_all s file commits run.1))
          (append_assoc moved (entry_of offset msg ∷ []) (new_entries commits)) rest)

  -- Where the database represents a user's stacks, the event is on top of a stack and nowhere
  -- below, and another event is on top of the other stack: handling changes of the user that take
  -- the event back and are about the objects of its entries, one for one, succeeds, and leaves a
  -- database that represents the stacks with the event gone from its stack and without entries, the
  -- other event with an entry for each change behind those it had, and all other events as they
  -- were.
  pub handle_all-IsRound :
      (commits : List (ℤ × ChangeMsg)) (db : s.Db) (entry : UndoEntry) (entries : List UndoEntry)
      → NoColon event
      → IsAbsent event below
      → event ≢ fresh
      → Represents s file user db start
      → stack_of from start ≡ below ++ event ∷ []
      → get_last? (stack_of (flip from) start) ≡ some fresh
      → start.events event ≡ entry ∷ entries
      → TakeBack from user event (entry ∷ entries) commits
      → IsRound (handle_all s file commits db) (new_entries commits)
  handle_all-IsRound commits db entry entries h absent differ r own top here k =
      commits-IsRound (entry ∷ entries) [] commits db start h absent differ top k r (record {
        own = own;
        other = refl;
        here = here;
        there = sym (append-nil (start.events fresh));
        apart = λ _ _ _. refl;
      })
