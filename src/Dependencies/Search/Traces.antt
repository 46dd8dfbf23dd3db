-- ===== src/Dependencies/Search/Traces.antt =====
-- What a list of references says of a search: each reference leads from a place that was visited to
-- a new one.
use kafka_cad.Prelude.{
  ◌≡◌, refl, subst, true, false, ◌||◌, List, [], ◌∷◌, ◌++◌, Eq, ◌==◌, ==_refl, Eq-cases, Bool-cases,
  inl, inr, arith,
}
use kafka_cad.Redis.{contains}
use kafka_cad.Dependencies.Refs.{RefId, Reference, ref_id_eq, reference_eq}
use kafka_cad.Dependencies.Sets.{IndexSet}

pub contains-concat {ℓ} :
    {A : Type ℓ} ⦃e : Eq A⦄ (xs : List A) (y x : A)
    → contains (xs ++ y ∷ []) x ≡ contains xs x || y == x
contains-concat [] y x = ground arith
contains-concat (z ∷ xs) y x = ground (arith, contains-concat xs y x)

-- The places visited after the references.
abbrev pub after : List RefId → List Reference → List RefId
after seen [] = seen
after seen (refer ∷ refers) = after (refer.owner ∷ seen) refers

pub contains-after :
    (seen : List RefId) (refers : List Reference) (x : RefId)
    → contains seen x ≡ true
    → contains (after seen refers) x ≡ true
contains-after seen [] x h = h
contains-after seen (refer ∷ refers) x h =
    contains-after (refer.owner ∷ seen) refers x (ground arith)

pub owner-after :
    (seen : List RefId) (refers : List Reference) (refer : Reference)
    → contains refers refer ≡ true
    → contains (after seen refers) refer.owner ≡ true
owner-after seen [] refer h = cc h
owner-after seen (r ∷ refers) refer h = elim (Eq-cases r refer) [
  | inl (t, p) ↦
      contains-after _ refers refer.owner
        (subst (λ q. contains (r.owner ∷ seen) q.owner ≡ true) p (rw (==_refl r.owner)))
  | inr (t, _) ↦ owner-after (r.owner ∷ seen) refers refer (rw t at h)
]

pub after-concat :
    (seen : List RefId) (refers : List Reference) (refer : Reference)
    → after seen (refers ++ refer ∷ []) ≡ refer.owner ∷ after seen refers
after-concat seen [] refer = refl
after-concat seen (r ∷ refers) refer = after-concat (r.owner ∷ seen) refers refer

-- Every reference is a subscription, from a place seen before to one not seen before.
abbrev pub Leads : (RefId → List RefId) → List RefId → List Reference → Type 0
Leads subs seen [] = Unit {0}
Leads subs seen (refer ∷ refers) =
    (contains seen refer.other ≡ true)
    × (contains seen refer.owner ≡ false)
    × (contains (subs refer.other) refer.owner ≡ true)
    × Leads subs (refer.owner ∷ seen) refers

pub Leads-concat :
    (subs : RefId → List RefId) (seen : List RefId) (refers : List Reference) (refer : Reference)
    → Leads subs seen refers
    → contains (after seen refers) refer.other ≡ true
    → contains (after seen refers) refer.owner ≡ false
    → contains (subs refer.other) refer.owner ≡ true
    → Leads subs seen (refers ++ refer ∷ [])
Leads-concat subs seen [] refer h p q r = (p, q, r, tt)
Leads-concat subs seen (x ∷ refers) refer (a, b, c, hs) p q r =
    (a, b, c, Leads-concat subs (x.owner ∷ seen) refers refer hs p q r)

-- A reference to a new place is new.
pub add_last_new :
    (index : IndexSet) (seen : List RefId) (refers : List Reference) (refer : Reference)
    → contains (after seen refers) refer.owner ≡ false
    → index.add_last refer refers ≡ refers ++ refer ∷ []
add_last_new index seen refers refer h =
    rw (index.add_last_order refer refers) (elim (Bool-cases (contains refers refer)) [
      | inl t ↦ absurd (let p = owner-after seen refers refer t in cc)
      | inr t ↦ rw t
    ])
