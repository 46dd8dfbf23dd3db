-- ===== src/Dependencies/Server/Searches.antt =====
-- The search of the dependency service after a log: it ends, and finds what depends on its start.
use kafka_cad.Prelude.{
  Bool, if◌then◌else◌, false, ℕ, suc, ◌≤◌, String, ◌≡◌, refl, ◌∙◌, Bool, true, false, ◌||◌, Option,
  none, some, List, [], ◌∷◌, ◌++◌, map, length, Eq, ◌==◌, Bool-cases, inl, inr, ◌⊎◌, arith,
}
use kafka_cad.Prelude.Int.{ℤ, leb_ℤ}
use kafka_cad.Prelude.Result.{ok}
use kafka_cad.State.{RefIdMsg, ReferenceMsg, ChangeMsg}
use kafka_cad.Redis.{contains}
use kafka_cad.Dependencies.{
  Services, DepChange, added, modified, deleted, edit, obj_refs, ref_id_subscribers,
}
use kafka_cad.Dependencies.Refs.{RefId, Reference, ref_id_eq, from_msg}
use kafka_cad.Dependencies.Updates.Edits.{contains-edit}
use kafka_cad.Dependencies.Updates.Newest.{get_ref_id_subs-newest, get_obj_refs-none}
use kafka_cad.Dependencies.Updates.Pending.{pending_one, pending}
use kafka_cad.Dependencies.Search.{breadth_first_search}
use kafka_cad.Dependencies.Search.Reaches.{IsSearch, breadth_first_search-IsSearch}
use kafka_cad.Dependencies.Server.{handle_stream}
use kafka_cad.Dependencies.Server.History.{
  Model, type_edits, newer, change_model, after_log, Represents, deliver, handle_stream-Represents,
}

-- The references that edits add to sets.
abbrev pub inserted_one : DepChange → Option RefIdMsg → List RefId
inserted_one deleted owner = []
inserted_one t none = []
inserted_one t (some owner) = from_msg owner ∷ []

abbrev pub inserted : List (Option (ReferenceMsg × DepChange)) → List RefId
inserted [] = []
inserted (none ∷ diffs) = inserted diffs
inserted (some (refer, t) ∷ diffs) = inserted_one t refer.owner ++ inserted diffs

-- The references that a log adds to sets.
abbrev pub places : List (ℤ × ChangeMsg) → Model → List RefId
places [] m = []
places ((offset, change) ∷ log) m =
    inserted (type_edits change.change_type m.stored) ++ places log (change_model offset change m)

abbrev value : List RefId → Option (List RefId) → List RefId
value old none = old
value old (some subs) = subs

contains-append :
    (xs ys : List RefId) (x : RefId) → contains (xs ++ ys) x ≡ (contains xs x || contains ys x)
contains-append [] ys x = refl
contains-append (y ∷ xs) ys x = rw (contains-append xs ys x) (ground arith)

added_bound : (a c d : Bool) → d ≡ true → d ≡ (if a then true else c) → (a || false || c) ≡ true
added_bound a c d h p = ground (arith, h, p)

deleted_bound : (a c d : Bool) → d ≡ true → d ≡ (if a then false else c) → c ≡ true
deleted_bound a c d h p = ground (arith, h, p)

-- An edit adds at most its own owner.
edit-bounded :
    (t : DepChange) (owner : RefIdMsg) (x : RefId) (set : List RefId)
    → contains (edit t (from_msg owner) set) x ≡ true
    → (contains (inserted_one t (some owner)) x || contains set x) ≡ true
edit-bounded added owner x set h =
    added_bound (from_msg owner == x) (contains set x) _ h
      (contains-edit added (from_msg owner) x set)
edit-bounded modified owner x set h =
    added_bound (from_msg owner == x) (contains set x) _ h
      (contains-edit modified (from_msg owner) x set)
edit-bounded deleted owner x set h =
    deleted_bound (from_msg owner == x) (contains set x) _ h
      (contains-edit deleted (from_msg owner) x set)

one-bounded :
    (owner other : Option RefIdMsg) (t : DepChange) (r x : RefId) (old : List RefId)
    (given : Option (List RefId))
    → contains (value old (pending_one owner other t r old given)) x ≡ true
    → (contains (inserted_one t owner) x || contains (value old given) x) ≡ true
one-bounded none other t r x old given h = ground (arith, h)
one-bounded (some owner) none t r x old given h = ground (arith, h)
one-bounded (some owner) (some other) t r x old given h = elim (Bool-cases (from_msg other == r)) [
  | inr u ↦ let k = (rw u at h) in ground (arith, k)
  | inl u ↦ go given (rw u at h)
]
  where
    go :
        (given : Option (List RefId))
        → contains (edit t (from_msg owner) (elim given [ none ↦ old | some subs ↦ subs ])) x ≡ true
        → (contains (inserted_one t (some owner)) x || contains (value old given) x) ≡ true
    go none k = edit-bounded t owner x old k
    go (some subs) k = edit-bounded t owner x subs k

pending-bounded :
    (diffs : List (Option (ReferenceMsg × DepChange))) (r x : RefId) (old : List RefId)
    (given : Option (List RefId))
    → contains (value old (pending diffs r old given)) x ≡ true
    → (contains (inserted diffs) x || contains (value old given) x) ≡ true
pending-bounded [] r x old given h = h
pending-bounded (none ∷ diffs) r x old given h = pending-bounded diffs r x old given h
pending-bounded (some (refer, t) ∷ diffs) r x old given h =
    let rest =
      pending-bounded diffs r x old (pending_one refer.owner refer.other t r old given) h in
    rw (contains-append (inserted_one t refer.owner) (inserted diffs) x)
      (elim (Bool-cases (contains (inserted diffs) x)) [
        | inl u ↦ ground (arith, u)
        | inr u ↦
            let k = one-bounded refer.owner refer.other t r x old given (rw u at rest) in
            ground (arith, k)
      ])

-- Somewhere in what is known.
abbrev pub IsSomewhere : Model → RefId → Type 0
IsSomewhere m x = (r : RefId) × (at : ℤ) × (contains (m.subs r at) x ≡ true)

or-cases : (a b : Bool) → (a || b) ≡ true → (a ≡ true) ⊎ (b ≡ true)
or-cases true b p = inl refl
or-cases false b p = inr p

newer-bounded :
    (diffs : List (Option (ReferenceMsg × DepChange))) (offset at : ℤ) (m : Model) (r x : RefId)
    → contains (newer offset (pending diffs r (m.subs r offset) none) at (m.subs r at)) x ≡ true
    → (contains (inserted diffs) x ≡ true) ⊎ IsSomewhere m x
newer-bounded diffs offset at m r x h =
    go (pending diffs r (m.subs r offset) none) (pending-bounded diffs r x (m.subs r offset) none) h
  where
    go :
        (o : Option (List RefId))
        → (contains (value (m.subs r offset) o) x ≡ true
            → (contains (inserted diffs) x || contains (m.subs r offset) x) ≡ true)
        → contains (newer offset o at (m.subs r at)) x ≡ true
        → (contains (inserted diffs) x ≡ true) ⊎ IsSomewhere m x
    go none k h = inr (r, at, h)
    go (some subs) k h = elim (Bool-cases (leb_ℤ offset at)) [
      | inr t ↦ inr (r, at, rw t at h)
      | inl t ↦ elim (or-cases _ _ (k (rw t at h))) [ inl p ↦ inl p | inr p ↦ inr (r, offset, p) ]
    ]

log-bounded :
    (log : List (ℤ × ChangeMsg)) (m : Model) (r : RefId) (at : ℤ) (x : RefId)
    → contains ((after_log log m).subs r at) x ≡ true
    → (contains (places log m) x ≡ true) ⊎ IsSomewhere m x
log-bounded [] m r at x h = inr (r, at, h)
log-bounded ((offset, change) ∷ log) m r at x h =
    let edits = type_edits change.change_type m.stored in
    let joined = contains-append (inserted edits) (places log (change_model offset change m)) x in
    elim (log-bounded log (change_model offset change m) r at x h) [
      | inl p ↦ inl (joined ∙ ground (arith, p))
      | inr (r', at', p) ↦ elim (newer-bounded edits offset at' m r' x p) [
        | inl q ↦ inl (joined ∙ ground (arith, q))
        | inr q ↦ inr q
      ]
    ]

-- Nothing is known.
abbrev pub nothing : Model
nothing = record { subs = λ r at. []; stored = λ id. none }

nothing-bounded :
    (log : List (ℤ × ChangeMsg)) (r : RefId) (at : ℤ) (x : RefId)
    → contains ((after_log log nothing).subs r at) x ≡ true
    → contains (places log nothing) x ≡ true
nothing-bounded log r at x h = elim (log-bounded log nothing r at x h) [
  | inl p ↦ p
  | inr (_, _, p) ↦ cc p
]

module _ {Blob : Type 0} ⦃e : Eq Blob⦄ (s : Services Blob) (file : String) where
  pub empty-Represents :
      (db : s.Db)
      → ((r : RefId) → s.lrange db (ref_id_subscribers s file r) ≡ [])
      → ((id : String) → s.get db (obj_refs file id) ≡ none)
      → Represents s file db nothing
  empty-Represents db lists texts = record {
    reads = λ r at. get_ref_id_subs-newest s file r at db ∙ rw (lists r);
    reads_refs = λ id. get_obj_refs-none s file id db (texts id);
  }

  -- After the service has consumed a log of changes of a file, from nothing stored of the file,
  -- fuel of one more than the references that the log adds to sets is enough for a search: it
  -- succeeds, each reference that it answers is a subscription at the offset, from the start or the
  -- owner of an earlier reference to an owner that is new, and the start with these owners are
  -- exactly what the subscriptions at the offset reach.
  pub breadth_first_search-log :
      (log : List (ℤ × ChangeMsg)) (db : s.Db) (fuel : ℕ) (offset : ℤ) (start : RefId)
      → ((r : RefId) → s.lrange db (ref_id_subscribers s file r) ≡ [])
      → ((id : String) → s.get db (obj_refs file id) ≡ none)
      → suc (length (places log nothing)) ≤ fuel
      → (found : List Reference) × (breadth_first_search s fuel file offset start
            (handle_stream s (map (deliver s file) log) db)
          ≡ some (ok found))
        × IsSearch (λ r. (after_log log nothing).subs r offset) start found
  breadth_first_search-log log db fuel offset start lists texts enough =
      let known =
        handle_stream-Represents s file log db nothing (empty-Represents db lists texts) in
      breadth_first_search-IsSearch s file offset (handle_stream s (map (deliver s file) log) db)
        (λ r. (after_log log nothing).subs r offset) (places log nothing)
        (λ r. known.reads r offset) (λ r x. nothing-bounded log r offset x) fuel start enough
