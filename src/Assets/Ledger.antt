-- ===== src/Assets/Ledger.antt =====
-- The books of one token over the calls of a stage.
use appsec_seq.Base.{
  ℕ, ◌+◌, ◌-◌, ◌≤◌, ◌<◌, ◌≡◌, ◌↔◌, List, [], ◌∷◌, arith, u128_mod, add_u128_exact,
}
use appsec_seq.Assets.{
  BorrowStateTracker, new, loan, allocate, owe, reward, take_in, recieve, add_gas_fee,
}

-- The calls of the stages. `loan` is only called by `allocate`.
pub data Call : Type 0 where
  allocates owes rewards takes recieves saves : ℕ → Call

unfoldable pub call : BorrowStateTracker → Call → BorrowStateTracker
call t (allocates q) = allocate t q
call t (owes q) = owe t q
call t (rewards q) = reward t q
call t (takes q) = take_in t q
call t (recieves q) = recieve t q
call t (saves q) = add_gas_fee t q

unfoldable pub calls : BorrowStateTracker → List Call → BorrowStateTracker
unfolding call
calls t [] = t
calls t (c ∷ cs) = calls (call t c) cs

abbrev pub amount : Call → ℕ
amount (allocates q) = q
amount (owes q) = q
amount (rewards q) = q
amount (takes q) = q
amount (recieves q) = q
amount (saves q) = q

-- The sum of a share of each call.
unfoldable pub total : (Call → ℕ) → List Call → ℕ
total f [] = 0
total f (c ∷ cs) = f c + total f cs

-- What comes in from users and from Uniswap's swaps, and what goes out to users and for the swaps.
abbrev pub comes_in : Call → ℕ
comes_in (recieves q) = q
comes_in (takes q) = q
comes_in _ = 0

abbrev pub goes_out : Call → ℕ
goes_out (allocates q) = q
goes_out (owes q) = q
goes_out _ = 0

abbrev pub owed : Call → ℕ
owed (owes q) = q
owed _ = 0

-- What is taken from Uniswap and no loan.
abbrev pub taken : Call → ℕ
taken (takes q) = q
taken (rewards q) = q
taken _ = 0

abbrev pub saved : Call → ℕ
saved (saves q) = q
saved _ = 0

-- No part of the books is above an amount.
abbrev pub IsBelow : BorrowStateTracker → ℕ → Type 0
IsBelow t n = (t.take ≤ n) × (t.contract_liquid ≤ n) × (t.settle ≤ n) × (t.save ≤ n)

-- The books agree with what came in, went out, was owed, was taken and was saved.
abbrev pub IsBalanced : BorrowStateTracker → ℕ → ℕ → ℕ → ℕ → ℕ → Type 0
IsBalanced t i o w k s =
    (t.contract_liquid + o ≡ i + t.settle) × (t.take + w ≡ t.settle + k) × (t.save ≡ s)

pub call-IsBelow :
    (t : BorrowStateTracker) (c : Call) (n : ℕ)
    → n + amount c < u128_mod
    → IsBelow t n
    → IsBelow (call t c) (n + amount c)
unfolding call allocate owe reward take_in recieve loan add_gas_fee
call-IsBelow t (allocates q) n h b = ground (
  arith,
  add_u128_exact t.take (q - t.contract_liquid),
  add_u128_exact t.settle (q - t.contract_liquid),
)
call-IsBelow t (owes q) n h b = ground (arith, add_u128_exact t.settle q)
call-IsBelow t (rewards q) n h b = ground (arith, add_u128_exact t.take q)
call-IsBelow t (takes q) n h b =
    ground (arith, add_u128_exact t.take q, add_u128_exact t.contract_liquid q)
call-IsBelow t (recieves q) n h b = ground (arith, add_u128_exact t.contract_liquid q)
call-IsBelow t (saves q) n h b = ground (arith, add_u128_exact t.save q)

call-IsBalanced :
    (t : BorrowStateTracker) (c : Call) (n i o w k s : ℕ)
    → n + amount c < u128_mod
    → IsBelow t n
    → IsBalanced t i o w k s
    → IsBalanced
        (call t c)
        (i + comes_in c)
        (o + goes_out c)
        (w + owed c)
        (k + taken c)
        (s + saved c)
unfolding call allocate owe reward take_in recieve loan add_gas_fee
call-IsBalanced t (allocates q) n i o w k s h b e = ground (
  arith,
  add_u128_exact t.take (q - t.contract_liquid),
  add_u128_exact t.settle (q - t.contract_liquid),
)
call-IsBalanced t (owes q) n i o w k s h b e = ground (arith, add_u128_exact t.settle q)
call-IsBalanced t (rewards q) n i o w k s h b e = ground (arith, add_u128_exact t.take q)
call-IsBalanced t (takes q) n i o w k s h b e =
    ground (arith, add_u128_exact t.take q, add_u128_exact t.contract_liquid q)
call-IsBalanced t (recieves q) n i o w k s h b e =
    ground (arith, add_u128_exact t.contract_liquid q)
call-IsBalanced t (saves q) n i o w k s h b e = ground (arith, add_u128_exact t.save q)

pub calls-IsBelow :
    (t : BorrowStateTracker) (cs : List Call) (n : ℕ)
    → n + total amount cs < u128_mod
    → IsBelow t n
    → IsBelow (calls t cs) (n + total amount cs)
unfolding calls total
calls-IsBelow t [] n h b = ground arith
calls-IsBelow t (c ∷ cs) n h b =
    ground (arith, calls-IsBelow (call t c) cs (n + amount c), call-IsBelow t c n)

calls-IsBalanced :
    (t : BorrowStateTracker) (cs : List Call) (n i o w k s : ℕ)
    → n + total amount cs < u128_mod
    → IsBelow t n
    → IsBalanced t i o w k s
    → IsBalanced
        (calls t cs)
        (i + total comes_in cs)
        (o + total goes_out cs)
        (w + total owed cs)
        (k + total taken cs)
        (s + total saved cs)
unfolding calls total
calls-IsBalanced t [] n i o w k s h b e = ground arith
calls-IsBalanced t (c ∷ cs) n i o w k s h b e = ground (
  arith,
  calls-IsBalanced (call t c) cs (n + amount c) (i + comes_in c) (o + goes_out c) (w + owed c)
      (k + taken c) (s + saved c),
  call-IsBelow t c n,
  call-IsBalanced t c n i o w k s,
)

-- Over the calls of a stage whose amounts together fit in a u128, the books of a token add up: what is
-- on hand and what went out is what came in and what is owed, Uniswap gives what it takes back but for
-- the swaps and the rewards, and the fees are saved. What is on hand covers what is owed exactly when
-- what came in covers what went out.
pub books_balance :
    (cs : List Call)
    → total amount cs < u128_mod
    → let t = calls new cs in
      (t.contract_liquid + total goes_out cs ≡ total comes_in cs + t.settle)
      × (t.take + total owed cs ≡ t.settle + total taken cs)
      × (t.save ≡ total saved cs)
      × ((t.settle ≤ t.contract_liquid) ↔ (total goes_out cs ≤ total comes_in cs))
unfolding new
books_balance cs h =
    let b : IsBalanced (calls new cs) (total comes_in cs) (total goes_out cs) (total owed cs)
        (total taken cs) (total saved cs) =
      ground (arith, calls-IsBalanced new cs 0 0 0 0 0 0) in
    (b.0, b.1, b.2, ((λ c. omega (arith, b.0)), (λ c. omega (arith, b.0))))
