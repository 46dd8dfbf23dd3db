-- ===== src/Dependencies/Search/Rounds.antt =====
-- What a round of the search keeps.
use kafka_cad.Prelude.{
  ◌≡◌, refl, sym, ap, ◌∙◌, subst, true, false, ◌||◌, List, [], ◌∷◌, ◌++◌, ◌==◌, Eq-cases,
  Bool-cases, inl, inr, ◌⊎◌, arith,
}
use kafka_cad.Redis.{contains}
use kafka_cad.Dependencies.Refs.{RefId, ref_id_eq, reference_eq}
use kafka_cad.Dependencies.Sets.{IndexSet}
use kafka_cad.Dependencies.Search.{Search, visit_one}
use kafka_cad.Dependencies.Search.Traces.{
  contains-concat, after, after-concat, Leads, Leads-concat, add_last_new,
}

-- The references that subscriptions lead to, from the first one on.
pub data Reaches (subs : RefId → List RefId) (start : RefId) : RefId → Type 0 where
  here : Reaches subs start start
  step : (x y : RefId) → Reaches subs start x → contains (subs x) y ≡ true → Reaches subs start y

-- The visit of a new subscriber.
abbrev pub visit_new : RefId → RefId → Search → Search
visit_new current sub st = record {
  visited = sub ∷ st.visited;
  result = st.result ++ record { owner = sub; other = current } ∷ [];
  processing = st.processing ++ sub ∷ [];
}

pub visit_one-visited :
    (index : IndexSet) (current sub x : RefId) (st : Search)
    → contains (visit_one index current sub st).visited x ≡ (sub == x || contains st.visited x)
unfolding visit_one
visit_one-visited index current sub x st = elim (Bool-cases (contains st.visited sub)) [
  | inr t ↦ rw (t, visit_one) refl
  | inl t ↦
      rw (t, visit_one)
        (elim (Eq-cases sub x) [
          | inl (u, p) ↦ rw u (subst (λ y. contains st.visited y ≡ true) p t)
          | inr (u, _) ↦ rw u
        ])
]

module _ (subs : RefId → List RefId) (start : RefId) where
  abbrev pub IsCovered : Search → RefId → Type 0
  IsCovered st x = (y : RefId) → contains (subs x) y ≡ true → contains st.visited y ≡ true

  -- `front` is what is taken out of the queue and not done.
  pub record Inv (front : List RefId) (st : Search) : Type 0 where
    pub known : st.visited ≡ after (start ∷ []) st.result
    pub leads : Leads subs (start ∷ []) st.result
    pub queued : (x : RefId) → contains st.processing x ≡ true → contains st.visited x ≡ true
    pub closed :
        (x : RefId)
        → contains st.visited x ≡ true
        → (contains front x ≡ true) ⊎ ((contains st.processing x ≡ true) ⊎ IsCovered st x)
    pub sound : (x : RefId) → contains st.visited x ≡ true → Reaches subs start x

  visit_one_new :
      (index : IndexSet) (front : List RefId) (current sub : RefId) (st : Search)
      → contains st.visited sub ≡ false
      → Inv front st
      → visit_one index current sub st ≡ visit_new current sub st
  unfolding visit_one
  visit_one_new index front current sub st h inv = rw (
    h,
    add_last_new index (start ∷ []) st.result (record { owner = sub; other = current })
        (subst (λ v. contains v sub ≡ false) inv.known h),
    visit_one,
  )

  visit_new-Inv :
      (front : List RefId) (current sub : RefId) (st : Search)
      → contains st.visited sub ≡ false
      → contains st.visited current ≡ true
      → contains (subs current) sub ≡ true
      → Inv front st
      → Inv front (visit_new current sub st)
  visit_new-Inv front current sub st h here_ c inv = record {
    known = ap (◌∷◌ sub) inv.known ∙ sym (after-concat (start ∷ []) st.result _);
    leads =
        Leads-concat subs (start ∷ []) st.result _ inv.leads
          (subst (λ v. contains v current ≡ true) inv.known here_)
          (subst (λ v. contains v sub ≡ false) inv.known h) c;
    queued = queued;
    closed = closed;
    sound = sound;
  }
    where
      queued :
          (x : RefId)
          → contains (st.processing ++ sub ∷ []) x ≡ true
          → contains (sub ∷ st.visited) x ≡ true
      queued x p =
          let q : contains st.processing x || sub == x ≡ true =
            sym (contains-concat st.processing sub x) ∙ p in
          elim (Bool-cases (contains st.processing x)) [
            | inl t ↦ let v = inv.queued x t in ground (arith, v)
            | inr t ↦ let v = (rw t at q) in ground (arith, v)
          ]

      closed :
          (x : RefId)
          → contains (sub ∷ st.visited) x ≡ true
          → (contains front x ≡ true)
            ⊎ ((contains (st.processing ++ sub ∷ []) x ≡ true)
                ⊎ IsCovered (visit_new current sub st) x)
      closed x p = elim (Bool-cases (sub == x)) [
        | inl t ↦ inr (inl (contains-concat st.processing sub x ∙ ground (arith, t)))
        | inr t ↦ elim (inv.closed x (rw t at p)) [
          | inl f ↦ inl f
          | inr (inl q) ↦ inr (inl (contains-concat st.processing sub x ∙ ground (arith, q)))
          | inr (inr k) ↦ inr (inr (λ y m. let v = k y m in ground (arith, v)))
        ]
      ]

      sound : (x : RefId) → contains (sub ∷ st.visited) x ≡ true → Reaches subs start x
      sound x p = elim (Eq-cases sub x) [
        | inl (_, q) ↦ subst (Reaches subs start) q (step current sub (inv.sound current here_) c)
        | inr (t, _) ↦ inv.sound x (rw t at p)
      ]

  pub visit_one-Inv :
      (index : IndexSet) (front : List RefId) (current sub : RefId) (st : Search)
      → contains st.visited current ≡ true
      → contains (subs current) sub ≡ true
      → Inv front st
      → Inv front (visit_one index current sub st)
  unfolding visit_one
  visit_one-Inv index front current sub st here_ c inv =
      elim (Bool-cases (contains st.visited sub)) [
        | inl t ↦ rw (t, visit_one) inv
        | inr t ↦
            subst (Inv front) (sym (visit_one_new index front current sub st t inv))
              (visit_new-Inv front current sub st t here_ c inv)
      ]
