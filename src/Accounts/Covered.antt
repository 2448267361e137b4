-- ===== src/Accounts/Covered.antt =====
-- Which pending orders the balances of a user pay for.
use appsec_seq.Base.{
  ℕ, ◌+◌, ◌-◌, ◌≤◌, ◌<◌, ◌≡◌, refl, arith, Bool, true, false, ◌||◌, List, [], ◌∷◌, ◌++◌, some,
  returns, if◌then◌else◌, ltb, ◌==◌, Bool-cases, inl, inr, ◌⊎◌,
}
use appsec_seq.Base.Maps.{nat_eq, get}
use appsec_seq.Prices.{u256_mod}
use appsec_seq.Accounts.{PendingUserAction, UserAccounts, BaselineState}
use appsec_seq.Accounts.Live.{invalidated, sub_u256, fetch_all_invalidated_orders}
use appsec_seq.Accounts.Verify.{hashes}
use appsec_seq.Accounts.Ranked.{total}

unfoldable pub of_token : ℕ → List PendingUserAction → List PendingUserAction
of_token token [] = []
of_token token (a ∷ acts) =
    let rest = of_token token acts in if a.token_address == token then a ∷ rest else rest

-- The first of these orders, if any, asks for more than is left.
abbrev pub Short : List PendingUserAction → ℕ → ℕ → ℕ → Type 0
Short [] approval balance angstrom = Unit
Short (a ∷ acts) approval balance angstrom =
    (approval < a.token_approval) ⊎ (balance < a.token_delta) ⊎ (angstrom < a.angstrom_delta)

-- The orders of a token, in the order of the list, in two parts: those that the balances pay for
-- together, and those from the first one on that they do not pay for any more.
pub record Split (token approval balance angstrom : ℕ) (acts : List PendingUserAction)
    : Type 0 where
  pub kept : List PendingUserAction
  pub dropped : List PendingUserAction
  pub parts : of_token token acts ≡ kept ++ dropped
  pub approved : total (λ a. a.token_approval) kept ≤ approval
  pub paid : total (λ a. a.token_delta) kept ≤ balance
  pub paid_inside : total (λ a. a.angstrom_delta) kept ≤ angstrom
  pub short :
      Short dropped
        (approval - total (λ a. a.token_approval) kept)
        (balance - total (λ a. a.token_delta) kept)
        (angstrom - total (λ a. a.angstrom_delta) kept)

invalidated_after :
    (token approval balance angstrom : ℕ) (acts : List PendingUserAction)
    → invalidated token approval balance angstrom true acts ≡ hashes (of_token token acts)
unfolding invalidated of_token hashes
invalidated_after token approval balance angstrom [] = refl
invalidated_after token approval balance angstrom (a ∷ acts) = ground (
  arith,
  invalidated_after token approval balance angstrom acts,
  invalidated_after token (sub_u256 approval a.token_approval) (sub_u256 balance a.token_delta)
      (sub_u256 angstrom a.angstrom_delta) acts,
)

sub_u256_exact : (a b : ℕ) → a < u256_mod → b ≤ a → sub_u256 a b ≡ a - b
sub_u256_exact a b h l = omega arith

keep_first :
    (token approval balance angstrom : ℕ) (a : PendingUserAction) (acts : List PendingUserAction)
    → (a.token_address == token) ≡ true
    → a.token_approval ≤ approval
    → a.token_delta ≤ balance
    → a.angstrom_delta ≤ angstrom
    → (s : Split token
        (approval - a.token_approval)
        (balance - a.token_delta)
        (angstrom - a.angstrom_delta)
        acts)
    → (t : Split token approval balance angstrom (a ∷ acts)) × (t.dropped ≡ s.dropped)
unfolding total of_token
keep_first token approval balance angstrom a acts e x y z s =
    let p = total (λ b. b.token_approval) s.kept in
    let q = total (λ b. b.token_delta) s.kept in
    let r = total (λ b. b.angstrom_delta) s.kept in
    let p' : approval - (a.token_approval + p) ≡ approval - a.token_approval - p = omega arith in
    let q' : balance - (a.token_delta + q) ≡ balance - a.token_delta - q = omega arith in
    let r' : angstrom - (a.angstrom_delta + r) ≡ angstrom - a.angstrom_delta - r = omega arith in
    (
      record {
        kept = a ∷ s.kept;
        dropped = s.dropped;
        parts = ground (arith, s.parts);
        approved = omega (arith, x, s.approved);
        paid = omega (arith, y, s.paid);
        paid_inside = omega (arith, z, s.paid_inside);
        short = rw (p', q', r') s.short;
      },
      refl,
    )

other_token :
    (token approval balance angstrom : ℕ) (a : PendingUserAction) (acts : List PendingUserAction)
    → (a.token_address == token) ≡ false
    → (s : Split token approval balance angstrom acts)
    → (t : Split token approval balance angstrom (a ∷ acts)) × (t.dropped ≡ s.dropped)
unfolding of_token
other_token token approval balance angstrom a acts e s = (
  record {
    kept = s.kept;
    dropped = s.dropped;
    parts = ground (arith, s.parts);
    approved = s.approved;
    paid = s.paid;
    paid_inside = s.paid_inside;
    short = s.short;
  },
  refl,
)

drop_all :
    (token approval balance angstrom : ℕ) (a : PendingUserAction) (acts : List PendingUserAction)
    → (a.token_address == token) ≡ true
    → (approval < a.token_approval) ⊎ (balance < a.token_delta) ⊎ (angstrom < a.angstrom_delta)
    → (t : Split token approval balance angstrom (a ∷ acts)) × (t.dropped ≡ a ∷ of_token token acts)
unfolding of_token total
drop_all token approval balance angstrom a acts e short = (
  record {
    kept = [];
    dropped = a ∷ of_token token acts;
    parts = ground arith;
    approved = omega arith;
    paid = omega arith;
    paid_inside = omega arith;
    short = ground arith;
  },
  refl,
)

abbrev over : ℕ → ℕ → ℕ → PendingUserAction → Bool
over approval balance angstrom a =
    ltb approval a.token_approval || ltb balance a.token_delta || ltb angstrom a.angstrom_delta

split_orders :
    (token approval balance angstrom : ℕ) (acts : List PendingUserAction)
    → approval < u256_mod
    → balance < u256_mod
    → angstrom < u256_mod
    → (s : Split token approval balance angstrom acts) × (invalidated token approval balance
          angstrom false acts
        ≡ hashes s.dropped)
unfolding invalidated of_token hashes total
split_orders token approval balance angstrom [] x y z = (
  record {
    kept = [];
    dropped = [];
    parts = refl;
    approved = omega arith;
    paid = omega arith;
    paid_inside = omega arith;
    short = tt;
  },
  refl,
)
split_orders token approval balance angstrom (a ∷ acts) x y z =
    elim (Bool-cases (a.token_address == token)) [
      | inr other ↦
          let (s, e) = split_orders token approval balance angstrom acts x y z in
          let (t, d) = other_token token approval balance angstrom a acts other s in
          (t, ground (arith, e, d))
      | inl mine ↦ elim (Bool-cases (over approval balance angstrom a)) [
        | inl exceeds ↦
            let (t, d) = drop_all token approval balance angstrom a acts mine (ground arith) in
            let later =
              invalidated_after token (sub_u256 approval a.token_approval)
                (sub_u256 balance a.token_delta) (sub_u256 angstrom a.angstrom_delta) acts in
            (t, ground (arith, d, later))
        | inr fits ↦
            let (s, e) =
              split_orders token (approval - a.token_approval) (balance - a.token_delta)
                (angstrom - a.angstrom_delta) acts (omega (arith, x)) (omega (arith, y))
                (omega (arith, z)) in
            let (t, d) =
              keep_first token approval balance angstrom a acts mine (ground arith) (ground arith)
                (ground arith) s in
            (
              t,
              ground (
                arith,
                e,
                d,
                sub_u256_exact approval a.token_approval x,
                sub_u256_exact balance a.token_delta y,
                sub_u256_exact angstrom a.angstrom_delta z,
              ),
            )
      ]
    ]

-- Of the orders of a token those are reported as invalidated, in the order in which they are kept, that the
-- balances of the user, each below 2 ^ 256, do not pay for together with all orders before them; the
-- others the balances pay for together, and the first one that is reported they would not pay for too.
pub fetch_all_invalidated-split :
    (s : UserAccounts) (user token approval balance angstrom : ℕ) (b : BaselineState)
    (acts : List PendingUserAction)
    → get user s.last_known_state ≡ some b
    → get token b.token_approval ≡ some approval
    → get token b.token_balance ≡ some balance
    → get token b.angstrom_balance ≡ some angstrom
    → get user s.pending_actions ≡ some acts
    → approval < u256_mod
    → balance < u256_mod
    → angstrom < u256_mod
    → (p : Split token approval balance angstrom acts) × (fetch_all_invalidated_orders s user token
        ≡ returns (hashes p.dropped))
unfolding fetch_all_invalidated_orders
fetch_all_invalidated-split s user token approval balance angstrom b acts e p q r a x y z =
    let (t, d) = split_orders token approval balance angstrom acts x y z in (t, ground (arith, d))
