-- ===== src/Examples/Coders.antt =====
-- Codes of values as bytes, in place of bincode: a value is written in front of a rest, and read
-- back from there.
use Prim.Native.Nat.{Ordering, compare}
use Prim.Native.Char.{IsScalar, Char, char}
use text.Mathlib.TextEquality.{IsScalar-prop}
use text.Mathlib.TextBridge.{to_list, of_list, of_list-to_list}
use mathlib.Core.List.{append_assoc}
use kafka_cad.Prelude.{
  ℕ, zero, suc, String, ◌≡◌, refl, ap, Bool, true, false, Option, none, some, List, [], ◌∷◌, ◌++◌,
  length, arith,
}
use kafka_cad.State.{Bytes}

pub record Coder (A : Type 0) : Type 0 where
  pub put : A → Bytes
  pub get : Bytes → Option (A × Bytes)
  pub get-put : (a : A) (rest : Bytes) → get (put a ++ rest) ≡ some (a, rest)

abbrev pub then_get :
    {A B : Type 0} → Option (A × Bytes) → (A → Bytes → Option (B × Bytes)) → Option (B × Bytes)
then_get none f = none
then_get (some (a, rest)) f = f a rest

abbrev pub number : Coder ℕ
number = record {
  put = λ n. n ∷ [];
  get = λ bytes. elim bytes [ [] ↦ none | n ∷ rest ↦ some (n, rest) ];
  get-put = λ n rest. refl;
}

module _ {A B : Type 0} (c : Coder A) where
  -- A type whose values are those of another.
  abbrev pub renamed : (f : B → A) (g : A → B) → ((b : B) → g (f b) ≡ b) → Coder B
  renamed f g h = record {
    put = λ b. c.put (f b);
    get = λ bytes. then_get (c.get bytes) (λ a rest. some (g a, rest));
    get-put = λ b rest. rw (c.get-put (f b) rest, h b);
  }

  abbrev pub pair : Coder B → Coder (A × B)
  pair d = record {
    put = λ p. c.put p.0 ++ d.put p.1;
    get = λ bytes.
        then_get (c.get bytes) (λ a rest. then_get (d.get rest) (λ b rest'. some ((a, b), rest')));
    get-put = λ p rest. rw (
      append_assoc (c.put p.0) (d.put p.1) rest,
      c.get-put p.0 (d.put p.1 ++ rest),
      d.get-put p.1 rest,
    );
  }

module _ {A : Type 0} (c : Coder A) where
  put_option : Option A → Bytes
  put_option none = 0 ∷ []
  put_option (some a) = 1 ∷ c.put a

  get_option : Bytes → Option (Option A × Bytes)
  get_option [] = none
  get_option (zero ∷ rest) = some (none, rest)
  get_option (suc _ ∷ rest) = then_get (c.get rest) (λ a rest'. some (some a, rest'))

  get-put_option :
      (o : Option A) (rest : Bytes) → get_option (put_option o ++ rest) ≡ some (o, rest)
  unfolding put_option get_option
  get-put_option none rest = refl
  get-put_option (some a) rest = rw (c.get-put a rest)

  pub option : Coder (Option A)
  option = record { put = put_option; get = get_option; get-put = get-put_option }

  put_all : List A → Bytes
  put_all [] = []
  put_all (a ∷ l) = c.put a ++ put_all l

  get_all : ℕ → Bytes → Option (List A × Bytes)
  get_all zero bytes = some ([], bytes)
  get_all (suc n) bytes =
      then_get (c.get bytes) (λ a rest. then_get (get_all n rest) (λ l rest'. some (a ∷ l, rest')))

  get-put_all :
      (l : List A) (rest : Bytes) → get_all (length l) (put_all l ++ rest) ≡ some (l, rest)
  unfolding put_all get_all
  get-put_all [] rest = refl
  get-put_all (a ∷ l) rest =
      rw (
        append_assoc (c.put a) (put_all l) rest,
        c.get-put a (put_all l ++ rest),
        get-put_all l rest,
      )

  get_list : Bytes → Option (List A × Bytes)
  get_list [] = none
  get_list (n ∷ rest) = get_all n rest

  pub list : Coder (List A)
  unfolding get_list
  list = record { put = λ l. length l ∷ put_all l; get = get_list; get-put = get-put_all }

scalar3 : Ordering → Ordering → Ordering → Bool
scalar3 Ordering.lt b c = true
scalar3 Ordering.eq Ordering.lt Ordering.lt = true
scalar3 Ordering.gt Ordering.lt Ordering.lt = true
scalar3 _ _ _ = false

is_scalar : ℕ → Bool
is_scalar n = scalar3 (compare n 55296) (compare 57343 n) (compare n 1114112)

is_scalar_sound : (n : ℕ) → is_scalar n ≡ true → IsScalar n
unfolding is_scalar scalar3
is_scalar_sound n h = ground arith

is_scalar_complete : (n : ℕ) → IsScalar n → is_scalar n ≡ true
unfolding is_scalar scalar3
is_scalar_complete n h = ground arith

scalar_or : (n : ℕ) (b : Bool) → is_scalar n ≡ b → Bytes → Option (Char × Bytes)
scalar_or n true h rest = some (char n (is_scalar_sound n h), rest)
scalar_or n false h rest = none

get_char : Bytes → Option (Char × Bytes)
get_char [] = none
get_char (n ∷ rest) = scalar_or n (is_scalar n) refl rest

scalar_or_lem :
    (n : ℕ) (p : IsScalar n) (b : Bool) (h : is_scalar n ≡ b) (rest : Bytes)
    → scalar_or n b h rest ≡ some (char n p, rest)
unfolding scalar_or
scalar_or_lem n p true h rest =
    ap (λ q. some (char n q, rest)) (IsScalar-prop n (is_scalar_sound n h) p)
scalar_or_lem n p false h rest = let q = is_scalar_complete n p in cc (q, h)

abbrev put_char : Char → Bytes
put_char (char n _) = n ∷ []

get-put_char : (c : Char) (rest : Bytes) → get_char (put_char c ++ rest) ≡ some (c, rest)
unfolding get_char
get-put_char (char n p) rest = scalar_or_lem n p (is_scalar n) refl rest

pub string : Coder String
string =
    renamed (list (record { put = put_char; get = get_char; get-put = get-put_char })) to_list
      of_list of_list-to_list
