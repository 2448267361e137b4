-- ===== src/Orders/Ids.antt =====
-- Equality of order ids, which is derived in the source.
use native.Mathlib.Decide.{ℕ_discrete}
use appsec_seq.Base.Maps.{Eq, beq_of_discrete, beq_of_discrete_iff}
use appsec_seq.Orders.{OrderId}

unfoldable pub OrderId-discrete : Discrete OrderId
OrderId-discrete = hlevel ℕ_discrete

instance abbrev pub order_id_eq : Eq OrderId
order_id_eq = record {
  beq = beq_of_discrete OrderId-discrete;
  beq_iff = beq_of_discrete_iff OrderId-discrete;
}
