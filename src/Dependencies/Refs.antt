-- ===== src/Dependencies/Refs.antt =====
-- RefId and Reference of dependencies/src/cache.rs, with the comparisons that are derived for them.
use mathlib.Core.Bool.{Bool, true, ◌&&◌}
use kafka_cad.Prelude.{
  ℕ, String, ◌≡◌, subst, ==_refl, Eq, string_eq, nat_eq, int_eq, ◌==◌, arith, ◌↔◌,
}
use kafka_cad.Prelude.Int.{ℤ}
use kafka_cad.State.{RefIdMsg, ReferenceMsg}
use kafka_cad.Prelude.{some}

pub record RefId : Type 0 where
  pub id : String
  pub ref_type : ℤ
  pub index : ℕ

pub record Reference : Type 0 where
  pub owner : RefId
  pub other : RefId

pub RefId-ext : (a b : RefId) → a.id ≡ b.id → a.ref_type ≡ b.ref_type → a.index ≡ b.index → a ≡ b
RefId-ext a b p q r = cc

pub and_iff : (a b c : Bool) → (a && b && c ≡ true) ↔ (a ≡ true) × (b ≡ true) × (c ≡ true)
and_iff a b c = ground arith

instance abbrev pub ref_id_eq : Eq RefId
ref_id_eq = record {
  beq = λ a b. a.id == b.id && a.ref_type == b.ref_type && a.index == b.index;
  beq_iff = λ a b. (
    λ h.
        let (p, q, r) = (and_iff _ _ _).0 h in
        RefId-ext a b ((string_eq.beq_iff a.id b.id).0 p)
          ((int_eq.beq_iff a.ref_type b.ref_type).0 q) ((nat_eq.beq_iff a.index b.index).0 r),
    λ p.
        subst (λ c. (a.id == c.id && a.ref_type == c.ref_type && a.index == c.index) ≡ true) p
          ((and_iff _ _ _).1 (==_refl a.id, ==_refl a.ref_type, ==_refl a.index)),
  );
}

pub pair_iff : (a b : Bool) → (a && b ≡ true) ↔ (a ≡ true) × (b ≡ true)
pair_iff a b = ground arith

pub Reference-ext : (a b : Reference) → a.owner ≡ b.owner → a.other ≡ b.other → a ≡ b
Reference-ext a b p q = cc

instance abbrev pub reference_eq : Eq Reference
reference_eq = record {
  beq = λ a b. a.owner == b.owner && a.other == b.other;
  beq_iff = λ a b. (
    λ h.
        let (p, q) = (pair_iff _ _).0 h in
        Reference-ext a b ((ref_id_eq.beq_iff a.owner b.owner).0 p)
          ((ref_id_eq.beq_iff a.other b.other).0 q),
    λ p.
        subst (λ c. (a.owner == c.owner && a.other == c.other) ≡ true) p
          ((pair_iff _ _).1 (==_refl a.owner, ==_refl a.other)),
  );
}

-- impl From<&RefIdMsg> for RefId, and back.
unfoldable pub from_msg : RefIdMsg → RefId
from_msg msg = record { id = msg.id; ref_type = msg.ref_type; index = msg.index }

pub to_msg : RefId → RefIdMsg
to_msg id = record { id = id.id; ref_type = id.ref_type; index = id.index }

pub reference_msg : Reference → ReferenceMsg
reference_msg refer = record {
  owner = some (to_msg refer.owner);
  other = some (to_msg refer.other);
}
