-- ===== src/Operations/Convert/Changes.antt =====
-- Changes to a map of objects and back: the changes come back in their order.
use mathlib.Core.List.{append_assoc, append-nil}
use kafka_cad.Prelude.{
  suc, String, ◌≡◌, refl, sym, ap, ◌∙◌, subst, Option, none, some, List, [], ◌∷◌, ◌++◌, length,
  length-append, get_elem?, string_eq, ◌==◌, Bool-cases, inl, inr, arith,
}
use kafka_cad.Prelude.Result.{ok}
use kafka_cad.State.{ObjectMsg, DeleteMsg, ChangeType, add, modify, delete, ChangeMsg}
use kafka_cad.Maps.{IndexMap, put_entry, lookup}
use kafka_cad.Operations.Geom.{Floats}
use kafka_cad.Operations.References.{ObjId}
use kafka_cad.Operations.DataBox.{DataBox, data_box, get_id}
use kafka_cad.Operations.UpdateAll.Frame.{IsKept, AllKept}
use kafka_cad.Operations.Convert.{
  Packages, to_obj_id, from_object_msg, to_object_msg, insert_change, insert_changes, new_type,
  change_msgs_from,
}

put_entry_new :
    {V : Type 0} (k : String) (v : V) (m : IndexMap V)
    → lookup k m ≡ none
    → put_entry k v m ≡ m ++ (k, v) ∷ []
put_entry_new k v [] h = refl
put_entry_new k v ((key, w) ∷ m) h = elim (Bool-cases (key == k)) [
  | inl t ↦ let q : some w ≡ none = rw t at h in cc q
  | inr t ↦ rw t (ap (◌∷◌ (key, w)) (put_entry_new k v m (rw t at h)))
]

get_elem?-append :
    {A : Type 0} (xs ys : List A) (y : A) → get_elem? (xs ++ y ∷ ys) (length xs) ≡ some y
get_elem?-append [] ys y = refl
get_elem?-append (x ∷ xs) ys y = get_elem?-append xs ys y

module _ {fl : Floats} (pk : Packages fl) where
  abbrev pub Objects : Type 0
  Objects = IndexMap (Option (DataBox fl))

  -- What a change says that can be read: the id and the object, under the object's own id.
  abbrev pub IsReadAs : Option ChangeType → ObjId → Option (DataBox fl) → Type 0
  IsReadAs none id o = ⊥
  IsReadAs (some (add object)) id none = ⊥
  IsReadAs (some (add object)) id (some obj) =
      (pk.parse_str object.id ≡ some id)
      × (pk.boxes.decode object.obj_data ≡ some obj)
      × (get_id fl obj ≡ id)
  IsReadAs (some (modify object)) id none = ⊥
  IsReadAs (some (modify object)) id (some obj) =
      (pk.parse_str object.id ≡ some id)
      × (pk.boxes.decode object.obj_data ≡ some obj)
      × (get_id fl obj ≡ id)
  IsReadAs (some (delete msg)) id none = pk.parse_str msg.id ≡ some id
  IsReadAs (some (delete msg)) id (some obj) = ⊥

  -- All changes can be read, and each is of an object that none before is of.
  abbrev pub AreReadAs : Objects → List ChangeMsg → Objects → Type 0
  AreReadAs seen [] [] = Unit {0}
  AreReadAs seen [] (_ ∷ _) = ⊥
  AreReadAs seen (_ ∷ _) [] = ⊥
  AreReadAs seen (msg ∷ msgs) ((id, o) ∷ m) =
      IsReadAs msg.change_type id o
      × (lookup id seen ≡ none)
      × AreReadAs (seen ++ (id, o) ∷ []) msgs m

  insert_change_lem :
      (t : Option ChangeType) (seen : Objects) (id : ObjId) (o : Option (DataBox fl))
      → IsReadAs t id o
      → lookup id seen ≡ none
      → insert_change pk t seen ≡ ok (seen ++ (id, o) ∷ [])
  unfolding insert_change to_obj_id from_object_msg
  insert_change_lem none seen id o r h = absurd r
  insert_change_lem (some (add object)) seen id none r h = absurd r
  insert_change_lem (some (add object)) seen id (some obj) (p, q, _) h = rw (
    p,
    q,
    insert_change,
    to_obj_id,
    from_object_msg,
    pk.index_map.insert_order id (some obj) seen,
    put_entry_new id (some obj) seen h,
  )
  insert_change_lem (some (modify object)) seen id none r h = absurd r
  insert_change_lem (some (modify object)) seen id (some obj) (p, q, _) h = rw (
    p,
    q,
    insert_change,
    to_obj_id,
    from_object_msg,
    pk.index_map.insert_order id (some obj) seen,
    put_entry_new id (some obj) seen h,
  )
  insert_change_lem (some (delete msg)) seen id none p h = rw (
    p,
    insert_change,
    to_obj_id,
    pk.index_map.insert_order id none seen,
    put_entry_new id none seen h,
  )
  insert_change_lem (some (delete msg)) seen id (some obj) r h = absurd r

  pub insert_changes_lem :
      (msgs : List ChangeMsg) (seen m : Objects)
      → AreReadAs seen msgs m
      → insert_changes pk msgs seen ≡ ok (seen ++ m)
  unfolding insert_changes
  insert_changes_lem [] seen [] r = ap ok (sym (append-nil seen))
  insert_changes_lem [] seen (_ ∷ _) r = absurd r
  insert_changes_lem (_ ∷ _) seen [] r = absurd r
  insert_changes_lem (msg ∷ msgs) seen ((id, o) ∷ m) (r, h, rs) =
      rw (insert_change_lem msg.change_type seen id o r h) (
        insert_changes_lem msgs (seen ++ (id, o) ∷ []) m rs
        ∙ ap ok (append_assoc seen ((id, o) ∷ []) m))

  -- The change that is sent for an object, of the kind of the change that came.
  abbrev pub IsSentAs : Option ChangeType → ObjId → Option (DataBox fl) → Option ChangeType → Type 0
  IsSentAs none id o t = ⊥
  IsSentAs (some (add _)) id none t = ⊥
  IsSentAs (some (add _)) id (some obj) t =
      (msg : ObjectMsg) × (t ≡ some (add msg))
      × (pk.parse_str msg.id ≡ some id)
      × (pk.boxes.decode msg.obj_data ≡ some obj)
  IsSentAs (some (modify _)) id none t = ⊥
  IsSentAs (some (modify _)) id (some obj) t =
      (msg : ObjectMsg) × (t ≡ some (modify msg))
      × (pk.parse_str msg.id ≡ some id)
      × (pk.boxes.decode msg.obj_data ≡ some obj)
  IsSentAs (some (delete _)) id none t =
      (msg : DeleteMsg) × (t ≡ some (delete msg)) × (pk.parse_str msg.id ≡ some id)
  IsSentAs (some (delete _)) id (some obj) t = ⊥

  -- One change for each change that came, in the same order, by the same user and with the same
  -- source.
  abbrev pub AreSentAs : List ChangeMsg → Objects → List ChangeMsg → Type 0
  AreSentAs [] [] [] = Unit {0}
  AreSentAs [] [] (_ ∷ _) = ⊥
  AreSentAs [] (_ ∷ _) changes = ⊥
  AreSentAs (_ ∷ _) [] changes = ⊥
  AreSentAs (_ ∷ _) (_ ∷ _) [] = ⊥
  AreSentAs (msg ∷ msgs) ((id, o) ∷ m) (change ∷ changes) =
      (change.user ≡ msg.user)
      × (change.change_source ≡ msg.change_source)
      × IsSentAs msg.change_type id o change.change_type
      × AreSentAs msgs m changes

  parse-get_id :
      (obj : DataBox fl) (id : ObjId)
      → get_id fl obj ≡ id
      → pk.parse_str (pk.to_string (get_id fl obj)) ≡ some id
  parse-get_id obj id p = pk.parse_str-to_string (get_id fl obj) ∙ ap some p

  new_type_lem :
      (t : Option ChangeType) (id : ObjId) (o o' : Option (DataBox fl))
      → IsReadAs t id o
      → IsKept (data_box fl) pk.index_map o o'
      → (t' : Option ChangeType) × (new_type pk t id o' ≡ ok (some t')) × IsSentAs t id o' t'
  unfolding new_type to_object_msg
  new_type_lem none id o o' r k = absurd r
  new_type_lem (some (add object)) id none o' r k = absurd r
  new_type_lem (some (add object)) id (some obj) none r (obj', p, q) = cc p
  new_type_lem (some (add object)) id (some obj) (some new) (_, _, own) (obj', p, q) =
      let same : new ≡ obj' = cc p in
      (
        _,
        refl,
        (_, refl, parse-get_id new id (ap (get_id fl) same ∙ q ∙ own), pk.boxes.decode-encode new),
      )
  new_type_lem (some (modify object)) id none o' r k = absurd r
  new_type_lem (some (modify object)) id (some obj) none r (obj', p, q) = cc p
  new_type_lem (some (modify object)) id (some obj) (some new) (_, _, own) (obj', p, q) =
      let same : new ≡ obj' = cc p in
      (
        _,
        refl,
        (_, refl, parse-get_id new id (ap (get_id fl) same ∙ q ∙ own), pk.boxes.decode-encode new),
      )
  new_type_lem (some (delete msg)) id (some obj) o' r k = absurd r
  new_type_lem (some (delete msg)) id none (some new) r k = cc k
  new_type_lem (some (delete msg)) id none none r k =
      (_, refl, (_, refl, pk.parse_str-to_string id))

  pub change_msgs_lem :
      (msgs : List ChangeMsg) (seen m before m' : Objects)
      → AreReadAs seen msgs m
      → AllKept (data_box fl) pk.index_map m m'
      → (changes : List ChangeMsg) × (change_msgs_from pk (length before) msgs (before ++ m')
          ≡ ok changes)
        × AreSentAs msgs m' changes
  unfolding change_msgs_from
  change_msgs_lem [] seen [] before [] r k = ([], refl, tt)
  change_msgs_lem [] seen [] before (_ ∷ _) r k = absurd k
  change_msgs_lem [] seen (_ ∷ _) before m' r k = absurd r
  change_msgs_lem (_ ∷ _) seen [] before m' r k = absurd r
  change_msgs_lem (_ ∷ _) seen (_ ∷ _) before [] r k = absurd k
  change_msgs_lem (msg ∷ msgs) seen ((id, o) ∷ m) before ((id', o') ∷ m') (r, _, rs) (p, k, ks) =
      let (t, runs, sent) =
        new_type_lem msg.change_type id' o o' (subst (λ x. IsReadAs msg.change_type x o) p r) k in
      let (changes, rest, all) =
        change_msgs_lem msgs (seen ++ (id, o) ∷ []) m (before ++ (id', o') ∷ []) m' rs ks in
      let size : length (before ++ (id', o') ∷ []) ≡ suc (length before) =
        omega (arith, length-append before ((id', o') ∷ [])) in
      let later = (rw (size, append_assoc before ((id', o') ∷ []) m') at rest) in
      (
        record { user = msg.user; change_type = t; change_source = msg.change_source } ∷ changes,
        rw (
          pk.index_map.get_index_order (before ++ (id', o') ∷ m') (length before),
          get_elem?-append before m' (id', o'),
          runs,
          later,
          change_msgs_from,
        ),
        (refl, refl, sent, all),
      )
