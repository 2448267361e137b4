-- ===== src/Assets/Array/Places.antt =====
-- The places of the tokens, as tokens are added and sorted.
use appsec_seq.Base.{
  ℕ, suc, zero, ◌+◌, ◌≤◌, ◌≡◌, refl, Bool, true, false, ◌||◌, List, [], ◌∷◌, ◌++◌, Option, none,
  some, ◌==◌, leb, length, arith, inl, inr, ◌⊎◌, Bool-cases, Option-cases, ==_iff, All, All-imp,
  leb→le,
}
use appsec_seq.Base.Maps.{Map, nat_eq, get, insert, get-insert, get-insert_self}
use appsec_seq.Assets.Array.{
  Asset, AssetArray, nth, addr_or_default, get_asset_addr, insert_sorted, sort_by_addr, enumerate,
  order_assets_properly, fresh_asset, add_or_get_asset_idx,
}

-- The address at a place.
unfoldable pub addr_at : ℕ → List Asset → Option ℕ
addr_at n [] = none
addr_at zero (a ∷ rest) = some a.addr
addr_at (suc n) (a ∷ rest) = addr_at n rest

-- Each place that is known for an address holds it.
abbrev pub IsPlaced : AssetArray → Type 0
IsPlaced s = (a i : ℕ) → get a s.assets_idx ≡ some i → addr_at i s.assets ≡ some a

unfoldable pub has_addr : ℕ → List Asset → Bool
has_addr a [] = false
has_addr a (x ∷ rest) = x.addr == a || has_addr a rest

addr_at-append :
    (i a : ℕ) (xs ys : List Asset) → addr_at i xs ≡ some a → addr_at i (xs ++ ys) ≡ some a
unfolding addr_at
addr_at-append i a [] ys h = absurd (ground arith)
addr_at-append zero a (x ∷ xs) ys h = h
addr_at-append (suc i) a (x ∷ xs) ys h = addr_at-append i a xs ys h

addr_at-length : (xs : List Asset) (y : Asset) → addr_at (length xs) (xs ++ y ∷ []) ≡ some y.addr
unfolding addr_at
addr_at-length [] y = refl
addr_at-length (x ∷ xs) y = addr_at-length xs y

addr_or_default-nth :
    (i a : ℕ) (xs : List Asset) → addr_at i xs ≡ some a → addr_or_default (nth i xs) ≡ a
unfolding addr_at nth
addr_or_default-nth i a [] h = absurd (ground arith)
addr_or_default-nth zero a (x ∷ xs) h = ground arith
addr_or_default-nth (suc i) a (x ∷ xs) h = addr_or_default-nth i a xs h

abbrev with_new : AssetArray → ℕ → AssetArray
with_new s a = record {
  assets = s.assets ++ fresh_asset a ∷ [];
  assets_idx = insert a (length s.assets) s.assets_idx;
}

with_new-IsPlaced : (s : AssetArray) (a : ℕ) → IsPlaced s → IsPlaced (with_new s a)
unfolding fresh_asset
with_new-IsPlaced s a p b i h = elim (Bool-cases (a == b)) [
  | inl same ↦ ground (
    arith,
    ==_iff a b,
    addr_at-length s.assets (fresh_asset a),
    get-insert b a (length s.assets) s.assets_idx,
  )
  | inr other ↦
      addr_at-append i b s.assets (fresh_asset a ∷ [])
        (p b i (ground (arith, get-insert b a (length s.assets) s.assets_idx)))
]

add_new :
    (s : AssetArray) (a : ℕ)
    → get a s.assets_idx ≡ none
    → add_or_get_asset_idx s a ≡ (with_new s a, length s.assets)
unfolding add_or_get_asset_idx
add_new s a e = ground arith

add_known :
    (s : AssetArray) (a i : ℕ) → get a s.assets_idx ≡ some i → add_or_get_asset_idx s a ≡ (s, i)
unfolding add_or_get_asset_idx
add_known s a i e = ground arith

-- A token that is added, or that was there before, stands at the place that the call gives, and every
-- place that is known afterwards holds its token, if that was so before.
pub add_or_get-IsPlaced :
    (s : AssetArray) (a : ℕ)
    → IsPlaced s
    → let r = add_or_get_asset_idx s a in
      IsPlaced r.0 × (get_asset_addr r.0 r.1 ≡ a) × (get a r.0.assets_idx ≡ some r.1)
unfolding get_asset_addr fresh_asset
add_or_get-IsPlaced s a p = elim (Option-cases (get a s.assets_idx)) [
  | inl none_known ↦
      let q : addr_at (length s.assets) (with_new s a).assets ≡ some a =
        addr_at-length s.assets (fresh_asset a) in
      rw (add_new s a none_known) (
        with_new-IsPlaced s a p,
        addr_or_default-nth (length s.assets) a (with_new s a).assets q,
        get-insert_self a (length s.assets) s.assets_idx,
      )
  | inr (i, known) ↦
      rw (add_known s a i known) (p, addr_or_default-nth i a s.assets (p a i known), known)
]

-- What an enumeration knows of an address: its place, or what was known before.
get-enumerate :
    (i a j : ℕ) (xs : List Asset) (m : Map ℕ ℕ)
    → get a (enumerate i xs m) ≡ some j
    → ((has_addr a xs ≡ false) × (get a m ≡ some j))
      ⊎ ((k : ℕ) × (j ≡ i + k) × (addr_at k xs ≡ some a))
unfolding enumerate addr_at has_addr
get-enumerate i a j [] m h = inl (refl, h)
get-enumerate i a j (x ∷ xs) m h = elim (get-enumerate (suc i) a j xs (insert x.addr i m) h) [
  | inr (k, e, at) ↦ inr (suc k, omega (arith, e), at)
  | inl (absent, before) ↦ elim (Bool-cases (x.addr == a)) [
    | inl same ↦ inr (0, ground (arith, get-insert a x.addr i m), ground (arith, ==_iff x.addr a))
    | inr other ↦ inl (ground arith, ground (arith, get-insert a x.addr i m))
  ]
]

has_addr-insert_sorted :
    (a : ℕ) (x : Asset) (xs : List Asset)
    → has_addr a (insert_sorted x xs) ≡ (x.addr == a || has_addr a xs)
unfolding has_addr insert_sorted
has_addr-insert_sorted a x [] = refl
has_addr-insert_sorted a x (y ∷ ys) = ground (arith, has_addr-insert_sorted a x ys)

has_addr-sort : (a : ℕ) (xs : List Asset) → has_addr a (sort_by_addr xs) ≡ has_addr a xs
unfolding has_addr sort_by_addr
has_addr-sort a [] = refl
has_addr-sort a (x ∷ xs) =
    ground (arith, has_addr-sort a xs, has_addr-insert_sorted a x (sort_by_addr xs))

has_addr-addr_at : (a i : ℕ) (xs : List Asset) → addr_at i xs ≡ some a → has_addr a xs ≡ true
unfolding has_addr addr_at
has_addr-addr_at a i [] h = absurd (ground arith)
has_addr-addr_at a zero (x ∷ xs) h = ground (arith, ==_iff x.addr a)
has_addr-addr_at a (suc i) (x ∷ xs) h = ground (arith, has_addr-addr_at a i xs h)

abbrev pub IsSorted : List Asset → Type 0
IsSorted [] = Unit
IsSorted (x ∷ xs) = All (λ y. x.addr ≤ y.addr) xs × IsSorted xs

All-insert_sorted :
    (n : ℕ) (x : Asset) (xs : List Asset)
    → n ≤ x.addr
    → All (λ y. n ≤ y.addr) xs
    → All (λ y. n ≤ y.addr) (insert_sorted x xs)
unfolding insert_sorted
All-insert_sorted n x [] h a = (h, tt)
All-insert_sorted n x (y ∷ ys) h a =
    ground (arith, All-insert_sorted n x ys h a.1, Bool-cases (leb x.addr y.addr))

insert_sorted-IsSorted : (x : Asset) (xs : List Asset) → IsSorted xs → IsSorted (insert_sorted x xs)
unfolding insert_sorted
insert_sorted-IsSorted x [] s = (tt, tt)
insert_sorted-IsSorted x (y ∷ ys) s = elim (Bool-cases (leb x.addr y.addr)) [
  | inl below ↦
      let h = leb→le x.addr y.addr below in
      rw below ((h, All-imp ys (λ z g. omega (arith, h, g)) s.0), s)
  | inr above ↦
      rw above (All-insert_sorted y.addr x ys (ground arith) s.0, insert_sorted-IsSorted x ys s.1)
]

sort-IsSorted : (xs : List Asset) → IsSorted (sort_by_addr xs)
unfolding sort_by_addr
sort-IsSorted [] = tt
sort-IsSorted (x ∷ xs) = insert_sorted-IsSorted x (sort_by_addr xs) (sort-IsSorted xs)

-- Once the tokens are put in order, their addresses ascend, the array has the addresses that it had
-- before, and every place that is known holds its token, if that was so before.
pub order_assets_properly-IsPlaced :
    (s : AssetArray) (a : ℕ)
    → IsPlaced s
    → let t = order_assets_properly s in
      IsPlaced t × IsSorted t.assets × (has_addr a t.assets ≡ has_addr a s.assets)
unfolding order_assets_properly
order_assets_properly-IsPlaced s a p = (
  (λ b i h. elim (get-enumerate 0 b i (sort_by_addr s.assets) s.assets_idx h) [
    | inr (k, e, at) ↦ ground (arith, e, at)
    | inl (absent, before) ↦
        absurd
          (ground (arith, has_addr-addr_at b i s.assets (p b i before), has_addr-sort b s.assets))
  ]),
  sort-IsSorted s.assets,
  has_addr-sort a s.assets,
)
