-- ===== src/Redis.antt =====
-- The Redis server and the codecs (bincode, prost), which the services call and which are not part
-- of the repository: interfaces with the documented behaviour that the services rely on.
use kafka_cad.Prelude.{
  ℕ, String, ◌≡◌, ◌≢◌, Bool, ◌||◌, false, Option, some, List, [], ◌∷◌, ◌++◌, length, get_elem?,
  get_last?, Eq, string_eq, ◌==◌, ==_refl, Eq-cases, Bool-cases, inl, inr, map, sym, ap, ◌∙◌, refl,
  if◌then◌else◌,
}

-- A serialisation of `A` into the byte strings that Redis and Kafka carry.
pub record Codec (Blob A : Type 0) : Type 0 where
  pub encode : A → Blob
  pub decode : Blob → Option A
  pub decode-encode : (a : A) → decode (encode a) ≡ some a

module _ {ℓ} {A : Type ℓ} ⦃e : Eq A⦄ where
  -- LREM key 1 value: the first occurrence from the head goes.
  abbrev pub remove_first : A → List A → List A
  remove_first a [] = []
  remove_first a (x ∷ xs) = if x == a then xs else x ∷ remove_first a xs

  abbrev pub contains : List A → A → Bool
  contains [] a = false
  contains (x ∷ xs) a = x == a || contains xs a

-- The commands, at a server that answers. Each key holds one type of value; the laws between
-- commands of two types are about two keys.
pub record Redis (Blob : Type 0) ⦃e : Eq Blob⦄ : Type 1 where
  pub Db : Type 0
  -- LRANGE key 0 -1, LLEN key, LINDEX key i, LINDEX key -1
  pub lrange : Db → String → List Blob
  pub llen : Db → String → ℕ
  pub lindex : Db → String → ℕ → Option Blob
  pub lindex_last : Db → String → Option Blob
  pub rpush : String → Blob → Db → Db
  pub lpush : String → Blob → Db → Db
  pub lrem : String → Blob → Db → Db
  -- GET and SET
  pub get : Db → String → Option Blob
  pub put : String → Blob → Db → Db
  -- SMEMBERS, SADD and SREM
  pub smembers : Db → String → List Blob
  pub sadd : String → Blob → Db → Db
  pub srem : String → Blob → Db → Db
  pub llen_lem : (db : Db) (k : String) → llen db k ≡ length (lrange db k)
  pub lindex_lem : (db : Db) (k : String) (i : ℕ) → lindex db k i ≡ get_elem? (lrange db k) i
  pub lindex_last_lem : (db : Db) (k : String) → lindex_last db k ≡ get_last? (lrange db k)
  pub lrange-rpush :
      (db : Db) (k j : String) (v : Blob)
      → lrange (rpush k v db) j ≡ (if k == j then lrange db j ++ v ∷ [] else lrange db j)
  pub lrange-lpush :
      (db : Db) (k j : String) (v : Blob)
      → lrange (lpush k v db) j ≡ (if k == j then v ∷ lrange db j else lrange db j)
  pub lrange-lrem :
      (db : Db) (k j : String) (v : Blob)
      → lrange (lrem k v db) j ≡ (if k == j then remove_first v (lrange db j) else lrange db j)
  pub lrange-put : (db : Db) (k j : String) (v : Blob) → k ≢ j → lrange (put k v db) j ≡ lrange db j
  pub lrange-sadd :
      (db : Db) (k j : String) (v : Blob) → k ≢ j → lrange (sadd k v db) j ≡ lrange db j
  pub lrange-srem :
      (db : Db) (k j : String) (v : Blob) → k ≢ j → lrange (srem k v db) j ≡ lrange db j
  pub get-put :
      (db : Db) (k j : String) (v : Blob)
      → get (put k v db) j ≡ (if k == j then some v else get db j)
  pub get-lpush : (db : Db) (k j : String) (v : Blob) → k ≢ j → get (lpush k v db) j ≡ get db j
  pub get-sadd : (db : Db) (k j : String) (v : Blob) → k ≢ j → get (sadd k v db) j ≡ get db j
  pub get-srem : (db : Db) (k j : String) (v : Blob) → k ≢ j → get (srem k v db) j ≡ get db j
  pub smembers-sadd :
      (db : Db) (k j : String) (v x : Blob)
      → contains (smembers (sadd k v db) j) x
        ≡ (if k == j then v == x || contains (smembers db j) x else contains (smembers db j) x)
  pub smembers-srem :
      (db : Db) (k j : String) (v x : Blob)
      → contains (smembers (srem k v db) j) x ≡ (
          if k == j
          then (if v == x then false else contains (smembers db j) x)
          else contains (smembers db j) x)
  pub smembers-lpush :
      (db : Db) (k j : String) (v : Blob) → k ≢ j → smembers (lpush k v db) j ≡ smembers db j
  pub smembers-put :
      (db : Db) (k j : String) (v : Blob) → k ≢ j → smembers (put k v db) j ≡ smembers db j

-- Two values have one encoding exactly where they are equal.
module _ {Blob A : Type 0} ⦃e : Eq Blob⦄ (c : Codec Blob A) where
  pub encode_injective : (a b : A) → c.encode a ≡ c.encode b → a ≡ b
  encode_injective a b q =
      let p : some a ≡ some b = sym (c.decode-encode a) ∙ ap c.decode q ∙ c.decode-encode b in cc p

  pub encode-beq : ⦃f : Eq A⦄ (a b : A) → (c.encode a == c.encode b) ≡ (a == b)
  encode-beq a b = elim (Eq-cases a b) [
    | inl (t, p) ↦ rw (t, p) (==_refl (c.encode b))
    | inr (t, n) ↦ elim (Eq-cases (c.encode a) (c.encode b)) [
      | inl (_, q) ↦ absurd (n (encode_injective a b q))
      | inr (t', _) ↦ rw t t'
    ]
  ]

  -- Removing an encoded text from a list of such.
  pub remove_first-map :
      ⦃f : Eq A⦄ (a : A) (xs : List A)
      → remove_first (c.encode a) (map c.encode xs) ≡ map c.encode (remove_first a xs)
  remove_first-map a [] = refl
  remove_first-map a (x ∷ xs) = elim (Bool-cases (x == a)) [
    | inl t ↦ rw (encode-beq x a, t)
    | inr t ↦ rw (encode-beq x a, t) (ap (◌∷◌ (c.encode x)) (remove_first-map a xs))
  ]
