-- ===== src/Assets/Chain.antt =====
-- Two stages one after the other.
use appsec_seq.Base.{
  ℕ, ◌+◌, ◌-◌, ◌≤◌, ◌<◌, ◌≡◌, refl, Bool, true, false, List, [], ◌∷◌, arith, u128_mod,
  add_u128_exact, All, ap, ◌∙◌,
}
use appsec_seq.Assets.{BorrowStateTracker, new, loan, owe, allocate, recieve, add_gas_fee, and_then}
use appsec_seq.Assets.Ledger.{
  Call, allocates, owes, rewards, takes, recieves, saves, call, calls, amount, total, IsBelow,
  call-IsBelow,
}

-- A call for a swap of a user or for a gas fee: nothing is swapped on Uniswap.
abbrev pub is_external : Call → Bool
is_external (allocates q) = true
is_external (recieves q) = true
is_external (saves q) = true
is_external _ = false

tracker_ext :
    (t u : BorrowStateTracker)
    → t.take ≡ u.take
    → t.contract_liquid ≡ u.contract_liquid
    → t.settle ≡ u.settle
    → t.save ≡ u.save
    → t ≡ u
tracker_ext t u a b c d = cc

and_then-call :
    (t u : BorrowStateTracker) (c : Call) (m n : ℕ)
    → m + n + amount c < u128_mod
    → IsBelow t m
    → IsBelow u n
    → u.take ≡ u.settle
    → is_external c ≡ true
    → (and_then t (call u c) ≡ call (and_then t u) c) × ((call u c).take ≡ (call u c).settle)
unfolding call allocate recieve loan add_gas_fee and_then
and_then-call t u (allocates q) m n h b d e x =
    (ground (arith, add_u128_exact t.take (u.take - t.contract_liquid)), ground arith)
and_then-call t u (recieves q) m n h b d e x = (
  ground (
    arith,
    add_u128_exact (t.contract_liquid - u.take) u.contract_liquid,
    add_u128_exact (t.contract_liquid - u.take + u.contract_liquid) q,
    add_u128_exact u.contract_liquid q,
    add_u128_exact (t.contract_liquid - u.take) (u.contract_liquid + q),
  ),
  e,
)
and_then-call t u (saves q) m n h b d e x = ground arith
and_then-call t u (owes q) m n h b d e x = absurd (ground arith)
and_then-call t u (rewards q) m n h b d e x = absurd (ground arith)
and_then-call t u (takes q) m n h b d e x = absurd (ground arith)

and_then-calls_from :
    (t u : BorrowStateTracker) (cs : List Call) (m n : ℕ)
    → m + n + total amount cs < u128_mod
    → IsBelow t m
    → IsBelow u n
    → u.take ≡ u.settle
    → All (λ c. is_external c ≡ true) cs
    → and_then t (calls u cs) ≡ calls (and_then t u) cs
unfolding calls total
and_then-calls_from t u [] m n h b d e x = refl
and_then-calls_from t u (c ∷ cs) m n h b d e x =
    let one = and_then-call t u c m n (omega (arith, h)) b d e x.0 in
    let rest =
      and_then-calls_from t (call u c) cs m (n + amount c) (omega (arith, h)) b
        (call-IsBelow u c n (omega (arith, h)) d) one.1 x.1 in
    rw (rest, one.0) refl

and_then-new : (t : BorrowStateTracker) (m : ℕ) → m < u128_mod → IsBelow t m → and_then t new ≡ t
unfolding and_then new
and_then-new t m h b =
    tracker_ext (and_then t new) t (ground arith) (ground arith) (ground arith) (ground arith)

-- A stage that swaps nothing on Uniswap comes after any other: to combine their books is to make its
-- calls on the books of the first, as long as the amounts together fit in a u128.
pub and_then-calls :
    (t : BorrowStateTracker) (cs : List Call) (m : ℕ)
    → m + total amount cs < u128_mod
    → IsBelow t m
    → All (λ c. is_external c ≡ true) cs
    → and_then t (calls new cs) ≡ calls t cs
unfolding new
and_then-calls t cs m h b x =
    and_then-calls_from t new cs m 0 (omega (arith, h)) b (ground arith) refl x
    ∙ ap (λ s. calls s cs) (and_then-new t m (omega (arith, h)) b)

-- Of three stages, as long as the amounts together fit in a u128, it does not matter which two are
-- combined first for what is taken, what is on hand and what is saved.
pub and_then_assoc :
    (t u v : BorrowStateTracker) (k m n : ℕ)
    → k + m + n < u128_mod
    → IsBelow t k
    → IsBelow u m
    → IsBelow v n
    → let l = and_then (and_then t u) v in
      let r = and_then t (and_then u v) in
      (l.take ≡ r.take) × (l.contract_liquid ≡ r.contract_liquid) × (l.save ≡ r.save)
unfolding and_then
and_then_assoc t u v k m n h b d e = ground (
  arith,
  add_u128_exact t.take (u.take - t.contract_liquid),
  add_u128_exact (t.contract_liquid - u.take) u.contract_liquid,
  add_u128_exact u.take (v.take - u.contract_liquid),
  add_u128_exact (u.contract_liquid - v.take) v.contract_liquid,
)

-- A stage that owes for a swap on Uniswap comes after one with enough on hand: its debt is left out of
-- the total. So is the debt of a second such stage, against the same amount on hand, which stays there,
-- whereas the same calls on one stage's books add both debts up.
pub settle-and_then :
    (t : BorrowStateTracker) (m p q : ℕ)
    → m + p + q < u128_mod
    → IsBelow t m
    → p ≤ t.contract_liquid
    → q ≤ t.contract_liquid
    → let r = and_then (and_then t (owe new p)) (owe new q) in
      (r.settle ≡ t.settle)
      × (r.contract_liquid ≡ t.contract_liquid)
      × ((owe (owe t p) q).settle ≡ t.settle + p + q)
unfolding and_then owe new
settle-and_then t m p q h b c d =
    ground (arith, add_u128_exact t.settle p, add_u128_exact (t.settle + p) q)
