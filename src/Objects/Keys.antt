-- ===== src/Objects/Keys.antt =====
-- When the keys of objects/src/cache.rs agree.
use kafka_cad.Prelude.{
  String, ◌≡◌, ◌≢◌, sym, false, ◌&&◌, inl, inr, string_eq, ◌==◌, ==_refl, Eq-cases, arith,
}
use text.Mathlib.TextEquality.{eq_iff}
use kafka_cad.Prelude.Text.{NoColon, colon_injective}
use kafka_cad.Objects.{obj_cache, file_offset, latest_obj_list}

-- Ids that are no texts of the service's own keys. A UUID is plain.
pub record IsPlainId (id : String) : Type 0 where
  pub no_colon : NoColon id
  pub not_offset : id ≢ "offset"
  pub not_list : id ≢ "obj_list"

pub obj_cache_injective :
    (f g i j : String) → NoColon i → NoColon j → obj_cache f i ≡ obj_cache g j → (f ≡ g) × (i ≡ j)
unfolding obj_cache
obj_cache_injective f g i j p q e = colon_injective f g i j p q e

pub file_offset-ne-obj_cache : (f g i : String) → IsPlainId i → file_offset g ≢ obj_cache f i
unfolding obj_cache file_offset
file_offset-ne-obj_cache f g i h e =
    h.not_offset (sym (colon_injective g f "offset" i (omega arith) h.no_colon e).1)

pub latest_obj_list-ne-obj_cache :
    (f g i : String) → IsPlainId i → latest_obj_list g ≢ obj_cache f i
unfolding obj_cache latest_obj_list
latest_obj_list-ne-obj_cache f g i h e =
    h.not_list (sym (colon_injective g f "obj_list" i (omega arith) h.no_colon e).1)

offset_differs : ◌≢◌ {A = String} "offset" "obj_list"
offset_differs e = cc ((eq_iff "offset" "obj_list").1 e)

pub file_offset-ne-latest_obj_list : (f g : String) → file_offset f ≢ latest_obj_list g
unfolding file_offset latest_obj_list
file_offset-ne-latest_obj_list f g e =
    offset_differs (colon_injective f g "offset" "obj_list" (omega arith) (omega arith) e).1

-- The test that Redis makes on two keys of the cache.
pub obj_cache-beq :
    (f g i j : String)
    → NoColon i
    → NoColon j
    → (obj_cache f i == obj_cache g j) ≡ (f == g && i == j)
obj_cache-beq f g i j p q = elim (Eq-cases f g) [
  | inl (t, e) ↦ elim (Eq-cases i j) [
    | inl (t', e') ↦ rw (t, t', e, e') (==_refl (obj_cache g j))
    | inr (t', n) ↦ rw (t, t') (differ (λ r. n (obj_cache_injective f g i j p q r).1))
  ]
  | inr (t, n) ↦ rw t (differ (λ r. n (obj_cache_injective f g i j p q r).0))
]
  where
    differ : (obj_cache f i ≢ obj_cache g j) → (obj_cache f i == obj_cache g j) ≡ false
    differ n = elim (Eq-cases (obj_cache f i) (obj_cache g j)) [
      | inl (_, e) ↦ absurd (n e)
      | inr (t, _) ↦ t
    ]
