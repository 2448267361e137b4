-- ===== src/Prices/Signed.antt =====
-- Debts as signed amounts.
use appsec_seq.Base.{
  ℕ, ◌+◌, ◌<◌, ◌≡◌, ◌↔◌, refl, arith, true, none, some, if◌then◌else◌, u128_mod, add_u128_exact,
}
use appsec_seq.Prices.Debts.{
  DebtType, exact_in, exact_out, magnitude, add, Debt, add_debt, same_side,
}

-- A debt as what it owes less what is owed to it.
abbrev pub plus : DebtType → ℕ
plus (exact_in q) = q
plus (exact_out q) = 0

abbrev pub minus : DebtType → ℕ
minus (exact_in q) = 0
minus (exact_out q) = q

-- Debts whose amounts together fit in a u128 add up as signed amounts: those of one type accumulate, and
-- those of two types annihilate, whichever is larger.
pub add-signed :
    (d e : DebtType)
    → magnitude d + magnitude e < u128_mod
    → plus (add d e) + (minus d + minus e) ≡ minus (add d e) + (plus d + plus e)
unfolding add magnitude
add-signed (exact_in p) (exact_in q) h = ground (arith, add_u128_exact p q)
add-signed (exact_in p) (exact_out q) h = ground arith
add-signed (exact_out p) (exact_in q) h = ground arith
add-signed (exact_out p) (exact_out q) h = ground (arith, add_u128_exact p q)

side-add : (d e : DebtType) → same_side (add d e) (if same_side (add d e) d then d else e) ≡ true
unfolding add same_side
side-add (exact_in p) (exact_in q) = refl
side-add (exact_in p) (exact_out q) = ground arith
side-add (exact_out p) (exact_in q) = ground arith
side-add (exact_out p) (exact_out q) = refl

-- Two debts whose amounts together fit in a u128 and that leave a debt: it is not empty, it is their sum
-- as signed amounts, and its price is that of the first debt that is on its side, one of which is.
pub add_debt-signed :
    (d e r : Debt)
    → magnitude d.owed + magnitude e.owed < u128_mod
    → add_debt d e ≡ some r
    → (plus r.owed + (minus d.owed + minus e.owed) ≡ minus r.owed + (plus d.owed + plus e.owed))
      × (0 < magnitude r.owed)
      × (r.cur_price ≡ (if same_side r.owed d.owed then d.cur_price else e.cur_price))
      × (same_side r.owed (if same_side r.owed d.owed then d.owed else e.owed) ≡ true)
unfolding add_debt
add_debt-signed d e r h q = ground (arith, add-signed d.owed e.owed h, side-add d.owed e.owed)

empty-signed : (d : DebtType) → (magnitude d ≡ 0) ↔ (plus d ≡ minus d)
unfolding magnitude
empty-signed (exact_in q) = ground arith
empty-signed (exact_out q) = ground arith

-- They leave none exactly when they cancel out.
pub add_debt-none :
    (d e : Debt)
    → magnitude d.owed + magnitude e.owed < u128_mod
    → (add_debt d e ≡ none) ↔ (plus d.owed + plus e.owed ≡ minus d.owed + minus e.owed)
unfolding add_debt
add_debt-none d e h = ground (arith, add-signed d.owed e.owed h, empty-signed (add d.owed e.owed))
