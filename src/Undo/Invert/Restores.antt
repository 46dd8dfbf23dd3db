-- ===== src/Undo/Invert/Restores.antt =====
-- What the changes of undo/src/invert.rs restore, with the previous objects from the object service
-- (objects/src/cache.rs) after it has consumed the log.
use kafka_cad.Prelude.{
  ℕ, String, ◌≡◌, refl, sym, ap₂, ◌∙◌, subst, Bool, true, false, ◌&&◌, Option, none, some, List, [],
  ◌∷◌, map, Eq, string_eq, Option-cases, inl, inr, arith, if◌then◌else◌,
}
use kafka_cad.Prelude.Int.{ℤ, pos, ltb_ℤ, leb-pred, pred_i64}
use kafka_cad.Prelude.Result.{ok}
use kafka_cad.State.{ChangeType, add, modify, delete, ChangeSource, ChangeMsg, ObjectMsg, type_id}
use kafka_cad.Objects.{Services, obj_cache, get_objects}
use kafka_cad.Objects.History.{Commit, IsPlainLog, is_version, latest, consume, changes_object}
use kafka_cad.Objects.Requests.{ArePlain, version_of, get_objects-consume}
use kafka_cad.Undo.{UndoChangeType, added, modified, deleted, not_set, UndoEntry}
use kafka_cad.Undo.Invert.{
  previous_of, get_all_previous_objects, inverse_type, invert_changes_inner, invert_changes,
}

-- The object that a change leaves, if it leaves one.
abbrev pub type_state : ChangeType → Option ObjectMsg
type_state (add object) = some object
type_state (modify object) = some object
type_state (delete _) = none

abbrev pub state_of : Option ChangeMsg → Option ObjectMsg
state_of none = none
state_of (some change) = elim change.change_type [ none ↦ none | some t ↦ type_state t ]

-- The last change of the object in the log whose offset is below `offset`.
abbrev pub latest_before : ℤ → String → String → List Commit → Option ChangeMsg
latest_before offset file id [] = none
latest_before offset file id (c ∷ log) = elim (latest_before offset file id log) [
  | some change ↦ some change
  | none ↦ if is_version file id c && ltb_ℤ c.offset offset then some c.change else none
]

-- The object of an entry as it was before the entry.
abbrev pub before : String → List Commit → UndoEntry → Option ObjectMsg
before file log entry = state_of (latest_before entry.offset file entry.obj_id log)

latest-pred :
    (n : ℕ) (file id : String) (log : List Commit)
    → latest (pred_i64 (pos n)) file id log ≡ latest_before (pos n) file id log
latest-pred n file id [] = refl
latest-pred n file id (c ∷ log) =
    ap₂
      (λ o b. elim o [
        | some change ↦ some change
        | none ↦ if is_version file id c && b then some c.change else none
      ])
      (latest-pred n file id log) (leb-pred c.offset n)

-- The entry is what the log of the file allows: a number of the log, and the object is there where
-- the entry changes or deletes it, and not where it adds it.
abbrev pub FitsKind : UndoChangeType → Option ObjectMsg → Type 0
FitsKind added o = o ≡ none
FitsKind _ o = (object : ObjectMsg) × (o ≡ some object)

abbrev pub Fits : String → List Commit → List UndoEntry → Type 0
Fits file log [] = Unit {0}
Fits file log (entry ∷ entries) =
    ((n : ℕ) × (entry.offset ≡ pos n))
    × FitsKind entry.change_type (before file log entry)
    × Fits file log entries

-- The change brings the object of the entry back to what it was.
pub record Restores (file : String) (log : List Commit) (user : String) (source : ChangeSource)
    (entry : UndoEntry) (change : ChangeMsg) : Type 0 where
  pub by : change.user ≡ user
  pub for_event : change.change_source ≡ some source
  pub kind : ChangeType
  pub has_kind : change.change_type ≡ some kind
  pub same_object : type_id kind ≡ entry.obj_id
  pub restored : type_state kind ≡ before file log entry

abbrev pub AreRestored :
    String → List Commit → String → ChangeSource → List UndoEntry → List ChangeMsg → Type 0
AreRestored file log user source [] [] = Unit {0}
AreRestored file log user source (entry ∷ entries) (change ∷ changes) =
    Restores file log user source entry change × AreRestored file log user source entries changes
AreRestored file log user source _ _ = ⊥

if-some :
    {A : Type 0} (b : Bool) (x y : A) → (if b then some x else none) ≡ some y → (b ≡ true) × (x ≡ y)
if-some true x y p = (refl, cc p)
if-some false x y p = cc p

and-right : (a b c : Bool) → (a && b) && c ≡ true → b ≡ true
and-right a b c p = ground arith

-- A change that the log gives for an object is one of the object.
latest-changes_object :
    (offset : ℤ) (file id : String) (log : List Commit) (change : ChangeMsg)
    → latest_before offset file id log ≡ some change
    → changes_object id change ≡ true
latest-changes_object offset file id [] change p = cc p
latest-changes_object offset file id (c ∷ log) change p =
    elim (Option-cases (latest_before offset file id log)) [
      | inr (found, q) ↦ latest-changes_object offset file id log change (q ∙ rw q at p)
      | inl q ↦
          let (h, same) = if-some _ c.change change (rw q at p) in
          subst (λ d. changes_object id d ≡ true) same (and-right _ _ _ h)
    ]

abbrev pub Inverts : String → UndoChangeType → Option ChangeMsg → Type 0
Inverts id k o =
    (t : ChangeType) × (inverse_type id k o ≡ some t)
    × (type_id t ≡ id)
    × (type_state t ≡ state_of o)

inverse-kind :
    (id : String) (k : UndoChangeType) (user : String) (t : Option ChangeType)
    (source : Option ChangeSource)
    → (let c : ChangeMsg = record { user = user; change_type = t; change_source = source } in
        changes_object id c ≡ true → FitsKind k (state_of (some c)) → Inverts id k (some c))
unfolding inverse_type
inverse-kind id added user t source g h = (delete (record { id = id }), refl, refl, sym h)
inverse-kind id k user none source g h = cc g
inverse-kind id modified user (some (add o)) source g h =
    (modify o, refl, (string_eq.beq_iff o.id id).0 g, refl)
inverse-kind id modified user (some (modify o)) source g h =
    (modify o, refl, (string_eq.beq_iff o.id id).0 g, refl)
inverse-kind id deleted user (some (add o)) source g h =
    (add o, refl, (string_eq.beq_iff o.id id).0 g, refl)
inverse-kind id deleted user (some (modify o)) source g h =
    (add o, refl, (string_eq.beq_iff o.id id).0 g, refl)
inverse-kind id not_set user (some (add o)) source g h =
    (add o, refl, (string_eq.beq_iff o.id id).0 g, refl)
inverse-kind id not_set user (some (modify o)) source g h =
    (add o, refl, (string_eq.beq_iff o.id id).0 g, refl)
inverse-kind id modified user (some (delete m)) source g h = cc h.1
inverse-kind id deleted user (some (delete m)) source g h = cc h.1
inverse-kind id not_set user (some (delete m)) source g h = cc h.1

-- The inverse of one entry.
inverse-lem :
    (id : String) (k : UndoChangeType) (o : Option ChangeMsg)
    → ((c : ChangeMsg) → o ≡ some c → changes_object id c ≡ true)
    → FitsKind k (state_of o)
    → Inverts id k o
unfolding inverse_type
inverse-lem id added none g h = (delete (record { id = id }), refl, refl, refl)
inverse-lem id modified none g h = cc h.1
inverse-lem id deleted none g h = cc h.1
inverse-lem id not_set none g h = cc h.1
inverse-lem id k (some c) g h = inverse-kind id k c.user c.change_type c.change_source (g c refl) h

restores_list :
    (file : String) (log : List Commit) (user : String) (source : ChangeSource)
    (entries : List UndoEntry)
    → Fits file log entries
    → AreRestored file log user source entries (
        invert_changes_inner user source entries
          (map (version_of file log) (map previous_of entries)))
unfolding invert_changes_inner
restores_list file log user source [] h = tt
restores_list file log user source (entry ∷ entries) ((n, at), fits, rest) =
    let (t, pushed, same, back) =
      inverse-lem entry.obj_id entry.change_type _
        (latest-changes_object entry.offset file entry.obj_id log) fits in
    let p : latest (pred_i64 entry.offset) file entry.obj_id log
        ≡ latest_before entry.offset file entry.obj_id log =
      subst (λ z. latest (pred_i64 z) file entry.obj_id log ≡ latest_before z file entry.obj_id log)
        (sym at) (latest-pred n file entry.obj_id log) in
    rw (p, pushed)
      (
        record {
          by = refl;
          for_event = refl;
          kind = t;
          has_kind = refl;
          same_object = same;
          restored = back;
        },
        restores_list file log user source entries rest,
      )

-- After the object service has consumed a log of plain ids into an empty cache of the file, for an
-- event whose entries fit that log: invert_changes with that service succeeds, with one change for
-- each entry in the order of the event, by the user and for the event, which is about the entry's
-- object and brings it back to what it was before the offset of the entry.
pub invert_changes-AreRestored :
    {Blob : Type 0} ⦃e : Eq Blob⦄ (s : Services Blob) (file user : String) (source : ChangeSource)
    (entries : List UndoEntry) (log : List Commit) (db : s.Db)
    → IsPlainLog log
    → ArePlain (map previous_of entries)
    → ((id : String) → s.lrange db (obj_cache file id) ≡ [])
    → Fits file log entries
    → (changes : List ChangeMsg) × (invert_changes
          (λ input. get_objects s input (consume s log db))
          file
          user
          source
          entries
        ≡ ok changes)
      × AreRestored file log user source entries changes
unfolding invert_changes get_all_previous_objects
invert_changes-AreRestored s file user source entries log db h k empty fits = (
  _,
  rw (
    get_objects-consume s (record { file = file; obj_ids = map previous_of entries }) log db h k
        empty,
    invert_changes,
  ),
  restores_list file log user source entries fits,
)
