-- ===== src/Orders/Priority.antt =====
-- `OrderPriorityData` of angstrom-main/crates/types/src/orders/orderpool, the key by which a pool
-- sorts its orders.
use Prim.Native.Nat.{compare, Ordering}
use appsec_seq.Base.{ℕ, ◌≡◌, ◌↔◌, Bool, true, false, arith}
use appsec_seq.Base.Maps.{Eq}

pub record OrderPriorityData : Type 0 where
  pub price : ℕ
  pub volume : ℕ
  pub gas : ℕ
  pub gas_units : ℕ

abbrev then_with : Ordering → Ordering → Ordering
then_with a b = elim a [ Ordering.eq ↦ b | Ordering.lt ↦ Ordering.lt | Ordering.gt ↦ Ordering.gt ]

-- First by price, then by volume, gas and gas units.
unfoldable pub cmp : OrderPriorityData → OrderPriorityData → Ordering
cmp a b =
    then_with
      (then_with (then_with (compare a.price b.price) (compare a.volume b.volume))
        (compare a.gas b.gas))
      (compare a.gas_units b.gas_units)

-- Two keys are one to a `BTreeMap` if `cmp` says so; `Reverse` changes nothing in that.
unfoldable pub same_key : OrderPriorityData → OrderPriorityData → Bool
same_key a b = elim (cmp a b) [ Ordering.eq ↦ true | _ ↦ false ]

pub same_key_iff : (a b : OrderPriorityData) → (same_key a b ≡ true) ↔ (a ≡ b)
unfolding same_key cmp
same_key_iff a b = ground arith

instance abbrev pub priority_eq : Eq OrderPriorityData
priority_eq = record { beq = same_key; beq_iff = same_key_iff }
