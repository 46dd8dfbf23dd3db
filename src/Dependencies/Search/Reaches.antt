-- ===== src/Dependencies/Search/Reaches.antt =====
-- The search finds everything that depends on its start.
use kafka_cad.Prelude.{
  ℕ, zero, suc, ◌≤◌, String, ◌≡◌, refl, sym, ◌∙◌, subst, Bool, true, false, some, List, [], ◌∷◌,
  length, Eq, ==_refl, Eq-cases, inl, inr, arith,
}
use kafka_cad.Prelude.Int.{ℤ}
use kafka_cad.Prelude.Result.{ok}
use kafka_cad.Redis.{contains}
use kafka_cad.Dependencies.{Services, get_ref_id_subs}
use kafka_cad.Dependencies.Refs.{RefId, Reference, ref_id_eq}
use kafka_cad.Dependencies.Search.{Search, visit, search, breadth_first_search}
use kafka_cad.Dependencies.Search.Traces.{after, Leads}
use kafka_cad.Dependencies.Search.Rounds.{Reaches, here, step, Inv}
use kafka_cad.Dependencies.Search.Visits.{
  weight, unvisited-length, visit-visited, visit-weight, round-Inv,
}

-- What the search answers: each reference is a subscription, from the start or the owner of an
-- earlier reference to an owner that is new, and with the start the owners are all that
-- subscriptions reach.
pub record IsSearch (subs : RefId → List RefId) (start : RefId) (result : List Reference)
    : Type 0 where
  pub leads : Leads subs (start ∷ []) result
  pub sound : (x : RefId) → contains (after (start ∷ []) result) x ≡ true → Reaches subs start x
  pub complete : (x : RefId) → Reaches subs start x → contains (after (start ∷ []) result) x ≡ true

module _ {Blob : Type 0} ⦃e : Eq Blob⦄ (s : Services Blob) (file : String) (offset : ℤ) (db : s.Db)
    (subs : RefId → List RefId) (places : List RefId)
    (reads : (r : RefId) → get_ref_id_subs s file r offset db ≡ ok (subs r))
    (bounded : (r x : RefId) → contains (subs r) x ≡ true → contains places x ≡ true) where
  done-IsSearch :
      (start : RefId) (visited : List RefId) (result : List Reference)
      → contains visited start ≡ true
      → Inv subs start [] (record { processing = []; visited = visited; result = result })
      → IsSearch subs start result
  done-IsSearch start visited result v inv = record {
    leads = inv.leads;
    sound = λ x p. inv.sound x (subst (λ l. contains l x ≡ true) (sym inv.known) p);
    complete = λ x p. subst (λ l. contains l x ≡ true) inv.known (all x p);
  }
    where
      all : (x : RefId) → Reaches subs start x → contains visited x ≡ true
      all x here = v
      all z (step y z' p m) = elim (inv.closed y (all y p)) [
        | inl f ↦ cc f
        | inr (inl f) ↦ cc f
        | inr (inr k) ↦ k z' m
      ]

  search-IsSearch :
      (fuel : ℕ) (start : RefId) (processing visited : List RefId) (result : List Reference)
      → contains visited start ≡ true
      → weight places (record { processing = processing; visited = visited; result = result })
        ≤ fuel
      → Inv subs start [] (record { processing = processing; visited = visited; result = result })
      → (found : List Reference) × (search s fuel file offset
            (record { processing = processing; visited = visited; result = result })
            db
          ≡ some (ok found))
        × IsSearch subs start found
  unfolding search
  search-IsSearch zero start [] visited result v h inv =
      (result, refl, done-IsSearch start visited result v inv)
  search-IsSearch (suc fuel) start [] visited result v h inv =
      (result, refl, done-IsSearch start visited result v inv)
  search-IsSearch zero start (current ∷ rest) visited result v h inv = absurd (omega (arith, h))
  search-IsSearch (suc fuel) start (current ∷ rest) visited result v h inv =
      let st : Search = record { processing = rest; visited = visited; result = result } in
      let next = visit s.index_set current (s.walk (subs current)) st in
      let less =
        visit-weight s.index_set places current (s.walk (subs current)) st
          (λ y m. bounded current y (sym (s.contains-walk (subs current) y) ∙ m)) in
      let (found, runs, good) =
        search-IsSearch fuel start next.processing next.visited next.result
          (visit-visited s.index_set current start (s.walk (subs current)) st ∙ ground (arith, v))
          (omega (arith, less, h))
          (round-Inv subs start s.index_set current rest visited (s.walk (subs current)) result
            (s.contains-walk (subs current)) inv) in
      (found, rw (reads current, search) runs, good)

  start-Inv :
      (start : RefId)
      → Inv subs start [] (record { processing = start ∷ []; visited = start ∷ []; result = [] })
  start-Inv start = record {
    known = refl;
    leads = tt;
    queued = λ x p. p;
    closed = λ x p. inr (inl p);
    sound = λ x p. elim (Eq-cases start x) [
      | inl (_, q) ↦ subst (Reaches subs start) q here
      | inr (t, _) ↦ absurd (let q : ◌≡◌ {A = Bool} false true = rw t at p in cc q)
    ];
  }

  -- Where every set of subscribers at the offset can be read and all subscribers are among finitely
  -- many references, one round more than these are is fuel enough: the search succeeds, each
  -- reference that it answers is a subscription, from the start or the owner of an earlier
  -- reference to an owner that is new, and the start with these owners are exactly what
  -- subscriptions reach from the start.
  pub breadth_first_search-IsSearch :
      (fuel : ℕ) (start : RefId)
      → suc (length places) ≤ fuel
      → (found : List Reference) × (breadth_first_search s fuel file offset start db
          ≡ some (ok found))
        × IsSearch subs start found
  unfolding breadth_first_search
  breadth_first_search-IsSearch fuel start h =
      search-IsSearch fuel start (start ∷ []) (start ∷ []) [] (rw (==_refl start))
        (let few = unvisited-length (start ∷ []) places in omega (arith, few, h)) (start-Inv start)
