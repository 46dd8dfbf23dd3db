-- ===== src/Dependencies/Sets.antt =====
-- IndexSet of the package indexmap, as dependencies/src/cache.rs uses it: a set of references that
-- is walked in the order of insertion. A set is the list of its elements in that order.
use kafka_cad.Prelude.{◌≡◌, List, [], ◌∷◌, ◌++◌, if◌then◌else◌}
use kafka_cad.Redis.{contains}
use kafka_cad.Dependencies.Refs.{Reference, reference_eq}

pub record IndexSet : Type 0 where
  pub add_last : Reference → List Reference → List Reference
  pub extend : List Reference → List Reference → List Reference
  -- An element that is new comes last, another changes nothing.
  pub add_last_order :
      (refer : Reference) (set : List Reference)
      → add_last refer set ≡ (if contains set refer then set else set ++ refer ∷ [])
  -- The elements are inserted one after another.
  pub extend_none : (set : List Reference) → extend set [] ≡ set
  pub extend_some :
      (set : List Reference) (refer : Reference) (refers : List Reference)
      → extend set (refer ∷ refers) ≡ extend (add_last refer set) refers
