-- ===== src/Examples/Server.antt =====
-- A server in memory that behaves as Redis is taken to behave, and trivial codecs.
use kafka_cad.Prelude.{
  String, ◌≡◌, ◌≢◌, refl, Bool, true, false, Option, none, some, List, [], ◌∷◌, ◌++◌, length,
  get_elem?, get_last?, Eq, string_eq, ◌==◌, Eq-cases, inl, inr, arith, if◌then◌else◌,
}
use kafka_cad.Redis.{Redis, remove_first, contains}

pub record Memory (Blob : Type 0) : Type 0 where
  pub lists : String → List Blob
  pub texts : String → Option Blob
  pub sets : String → List Blob

abbrev pub update {ℓ} : {A : Type ℓ} → (String → A) → String → A → String → A
update f k v j = if k == j then v else f j

pub at_key :
    {A : Type 0} (f : String → A) (g : A → A) (k j : String)
    → update f k (g (f k)) j ≡ (if k == j then g (f j) else f j)
at_key f g k j = elim (Eq-cases k j) [ inl (t, p) ↦ rw (t, p) | inr (t, _) ↦ rw t ]

pub away : {A : Type 0} (f : String → A) (k j : String) (v : A) → k ≢ j → update f k v j ≡ f j
away f k j v n = elim (Eq-cases k j) [ inl (_, p) ↦ absurd (n p) | inr (t, _) ↦ rw t ]

module _ {Blob : Type 0} ⦃e : Eq Blob⦄ where
  abbrev pub remove_all : Blob → List Blob → List Blob
  remove_all a [] = []
  remove_all a (x ∷ xs) = if a == x then remove_all a xs else x ∷ remove_all a xs

  pub contains-remove_all :
      (a x : Blob) (xs : List Blob)
      → contains (remove_all a xs) x ≡ (if a == x then false else contains xs x)
  contains-remove_all a x [] = ground arith
  contains-remove_all a x (y ∷ ys) =
      ground (arith, contains-remove_all a x ys, e.beq_iff a y, e.beq_iff y x, e.beq_iff a x)

  pub contains-if :
      (b : Bool) (xs ys : List Blob) (x : Blob)
      → contains (if b then xs else ys) x ≡ (if b then contains xs x else contains ys x)
  contains-if true xs ys x = refl
  contains-if false xs ys x = refl

  abbrev pub memory : Redis Blob
  memory = record {
    Db = Memory Blob;
    lrange = λ db k. db.lists k;
    llen = λ db k. length (db.lists k);
    lindex = λ db k i. get_elem? (db.lists k) i;
    lindex_last = λ db k. get_last? (db.lists k);
    rpush = λ k v db. record db { lists = update db.lists k (db.lists k ++ v ∷ []) };
    lpush = λ k v db. record db { lists = update db.lists k (v ∷ db.lists k) };
    lrem = λ k v db. record db { lists = update db.lists k (remove_first v (db.lists k)) };
    get = λ db k. db.texts k;
    put = λ k v db. record db { texts = update db.texts k (some v) };
    smembers = λ db k. db.sets k;
    sadd = λ k v db. record db { sets = update db.sets k (v ∷ db.sets k) };
    srem = λ k v db. record db { sets = update db.sets k (remove_all v (db.sets k)) };
    llen_lem = λ db k. refl;
    lindex_lem = λ db k i. refl;
    lindex_last_lem = λ db k. refl;
    lrange-rpush = λ db k j v. at_key db.lists (λ l. l ++ v ∷ []) k j;
    lrange-lpush = λ db k j v. at_key db.lists (λ l. v ∷ l) k j;
    lrange-lrem = λ db k j v. at_key db.lists (remove_first v) k j;
    lrange-put = λ db k j v n. refl;
    lrange-sadd = λ db k j v n. refl;
    lrange-srem = λ db k j v n. refl;
    get-put = λ db k j v. refl;
    get-lpush = λ db k j v n. refl;
    get-sadd = λ db k j v n. refl;
    get-srem = λ db k j v n. refl;
    smembers-sadd = λ db k j v x. rw (at_key db.sets (λ l. v ∷ l) k j) (contains-if (k == j) _ _ x);
    smembers-srem = λ db k j v x.
        rw (at_key db.sets (remove_all v) k j, contains-if)
          (rw (contains-remove_all v x (db.sets j)));
    smembers-lpush = λ db k j v n. refl;
    smembers-put = λ db k j v n. refl;
  }

  abbrev pub empty : Memory Blob
  empty = record { lists = λ _. []; texts = λ _. none; sets = λ _. [] }
