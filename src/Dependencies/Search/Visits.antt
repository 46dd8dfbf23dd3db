-- ===== src/Dependencies/Search/Visits.antt =====
-- The visit of all the subscribers of one reference: what it keeps, and how it uses up the places
-- that there are.
use kafka_cad.Prelude.{
  ℕ, suc, ◌+◌, ◌≤◌, ◌≡◌, refl, sym, ◌∙◌, subst, Bool, true, false, ◌||◌, List, [], ◌∷◌, length,
  length-append, ◌==◌, ==_refl, Eq-cases, Bool-cases, inl, inr, ◌⊎◌, arith, if◌then◌else◌,
}
use kafka_cad.Redis.{contains}
use kafka_cad.Dependencies.Refs.{RefId, Reference, ref_id_eq}
use kafka_cad.Dependencies.Sets.{IndexSet}
use kafka_cad.Dependencies.Search.{Search, visit_one, visit}
use kafka_cad.Dependencies.Search.Rounds.{Inv, IsCovered, visit_one-Inv, visit_one-visited}

pub visit-visited :
    (index : IndexSet) (current x : RefId) (sub_set : List RefId) (st : Search)
    → contains (visit index current sub_set st).visited x
      ≡ (contains sub_set x || contains st.visited x)
unfolding visit
visit-visited index current x [] st = refl
visit-visited index current x (sub ∷ sub_set) st =
    visit-visited index current x sub_set (visit_one index current sub st)
    ∙ rw (visit_one-visited index current sub x st) (ground arith)

-- How many of the places are not visited.
abbrev pub unvisited : List RefId → List RefId → ℕ
unvisited visited [] = 0
unvisited visited (x ∷ places) = (if contains visited x then 0 else 1) + unvisited visited places

unvisited-le :
    (visited places : List RefId) (sub : RefId)
    → unvisited (sub ∷ visited) places ≤ unvisited visited places
unvisited-le visited [] sub = omega arith
unvisited-le visited (x ∷ places) sub =
    let rest = unvisited-le visited places sub in ground (arith, rest)

unvisited-lt :
    (visited places : List RefId) (sub : RefId)
    → contains visited sub ≡ false
    → contains places sub ≡ true
    → suc (unvisited (sub ∷ visited) places) ≤ unvisited visited places
unvisited-lt visited [] sub h k = cc k
unvisited-lt visited (x ∷ places) sub h k = elim (Eq-cases x sub) [
  | inl (t, p) ↦
      let rest = unvisited-le visited places sub in
      let new : contains visited x ≡ false = subst (λ y. contains visited y ≡ false) (sym p) h in
      let same : (sub == x) ≡ true = subst (λ y. (y == x) ≡ true) p (==_refl x) in
      rw (new, same) (omega (arith, rest))
  | inr (t, _) ↦ let rest = unvisited-lt visited places sub h (rw t at k) in ground (arith, rest)
]

pub unvisited-length : (visited places : List RefId) → unvisited visited places ≤ length places
unvisited-length visited [] = omega arith
unvisited-length visited (x ∷ places) =
    let rest = unvisited-length visited places in ground (arith, rest)

-- The rounds that are left at most.
abbrev pub weight : List RefId → Search → ℕ
weight places st = length st.processing + unvisited st.visited places

visit_one-weight :
    (index : IndexSet) (places : List RefId) (current sub : RefId) (st : Search)
    → contains places sub ≡ true
    → weight places (visit_one index current sub st) ≤ weight places st
unfolding visit_one
visit_one-weight index places current sub st h = elim (Bool-cases (contains st.visited sub)) [
  | inl t ↦ rw (t, visit_one) (omega arith)
  | inr t ↦
      let less = unvisited-lt st.visited places sub t h in
      rw (t, visit_one) (omega (arith, less, length-append st.processing (sub ∷ [])))
]

pub visit-weight :
    (index : IndexSet) (places : List RefId) (current : RefId) (sub_set : List RefId) (st : Search)
    → ((y : RefId) → contains sub_set y ≡ true → contains places y ≡ true)
    → weight places (visit index current sub_set st) ≤ weight places st
unfolding visit
visit-weight index places current [] st h = omega arith
visit-weight index places current (sub ∷ sub_set) st h =
    let one = visit_one-weight index places current sub st (h sub (rw (==_refl sub))) in
    let rest =
      visit-weight index places current sub_set (visit_one index current sub st)
        (λ y m. h y (ground (arith, m))) in
    omega (arith, one, rest)

module _ (subs : RefId → List RefId) (start : RefId) where
  visit-Inv :
      (index : IndexSet) (front : List RefId) (current : RefId) (sub_set : List RefId) (st : Search)
      → contains st.visited current ≡ true
      → ((y : RefId) → contains sub_set y ≡ true → contains (subs current) y ≡ true)
      → Inv subs start front st
      → Inv subs start front (visit index current sub_set st)
  unfolding visit
  visit-Inv index front current [] st v h inv = inv
  visit-Inv index front current (sub ∷ sub_set) st v h inv =
      visit-Inv index front current sub_set (visit_one index current sub st)
        (visit_one-visited index current sub current st ∙ ground (arith, v))
        (λ y m. h y (ground (arith, m)))
        (visit_one-Inv subs start index front current sub st v (h sub (rw (==_refl sub))) inv)

  pop-Inv :
      (current : RefId) (rest visited : List RefId) (result : List Reference)
      → Inv subs start []
          (record { processing = current ∷ rest; visited = visited; result = result })
      → Inv subs start
          (current ∷ [])
          (record { processing = rest; visited = visited; result = result })
  pop-Inv current rest visited result inv = record {
    known = inv.known;
    leads = inv.leads;
    queued = λ x p. inv.queued x (ground (arith, p));
    closed = closed;
    sound = inv.sound;
  }
    where
      closed :
          (x : RefId)
          → contains visited x ≡ true
          → (contains (current ∷ []) x ≡ true)
            ⊎ ((contains rest x ≡ true)
                ⊎ IsCovered subs start
                    (record { processing = rest; visited = visited; result = result })
                    x)
      closed x p = elim (inv.closed x p) [
        | inl f ↦ cc f
        | inr (inr k) ↦ inr (inr k)
        | inr (inl q) ↦ elim (Bool-cases (current == x)) [
          | inl t ↦ inl (rw t)
          | inr t ↦ inr (inl (rw t at q))
        ]
      ]

  -- A whole round.
  pub round-Inv :
      (index : IndexSet) (current : RefId) (rest visited sub_set : List RefId)
      (result : List Reference)
      → ((y : RefId) → contains sub_set y ≡ contains (subs current) y)
      → Inv subs start []
          (record { processing = current ∷ rest; visited = visited; result = result })
      → Inv subs start [] (
          visit index current sub_set
            (record { processing = rest; visited = visited; result = result }))
  round-Inv index current rest visited sub_set result same inv = record {
    known = done.known;
    leads = done.leads;
    queued = done.queued;
    closed = closed;
    sound = done.sound;
  }
    where
      st : Search
      st = record { processing = rest; visited = visited; result = result }

      done : Inv subs start (current ∷ []) (visit index current sub_set st)
      done =
          visit-Inv index (current ∷ []) current sub_set st
            (inv.queued current (rw (==_refl current))) (λ y m. sym (same y) ∙ m)
            (pop-Inv current rest visited result inv)

      covered : IsCovered subs start (visit index current sub_set st) current
      covered y m = visit-visited index current y sub_set st ∙ rw (same y, m)

      closed :
          (x : RefId)
          → contains (visit index current sub_set st).visited x ≡ true
          → (◌≡◌ {A = Bool} false true)
            ⊎ ((contains (visit index current sub_set st).processing x ≡ true)
                ⊎ IsCovered subs start (visit index current sub_set st) x)
      closed x p = elim (done.closed x p) [
        | inr k ↦ inr k
        | inl f ↦ elim (Eq-cases current x) [
          | inl (_, q) ↦
              inr (inr (subst (IsCovered subs start (visit index current sub_set st)) q covered))
          | inr (t, _) ↦ inl (rw t at f)
        ]
      ]
