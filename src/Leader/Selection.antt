-- ===== src/Leader/Selection.antt =====
-- Which validator is chosen.
use Prim.Native.Nat.{Ordering}
use appsec_seq.Base.{
  ℕ, ◌+◌, ◌≤◌, ◌<◌, ◌≡◌, refl, sym, ap, subst, ◌∙◌, List, [], ◌∷◌, map, none, some, returns, panics,
  ◌⊎◌, inl, inr, All, Option-cases, arith,
}
use appsec_seq.Base.Int.{pos_part, neg_part, eq_of_parts}
use appsec_seq.Leader.{
  AngstromValidator, WeightedRoundRobin, priority, max_from, max_by, raise, lower, replace,
  proposer_selection, total_voting_power,
}

-- The validator `x` comes after `m` or is level with it: a lower priority, or the same priority and no
-- higher peer id.
abbrev pub AtMost : AngstromValidator → AngstromValidator → Type 0
AtMost x m =
    (pos_part x.priority + neg_part m.priority < pos_part m.priority + neg_part x.priority)
    ⊎ ((x.priority ≡ m.priority) × (x.peer_id ≤ m.peer_id))

-- A validator stands in a list.
abbrev pub In : AngstromValidator → List AngstromValidator → Type 0
In v [] = ⊥
In v (x ∷ xs) = (v ≡ x) ⊎ In v xs

AtMost-refl : (x : AngstromValidator) → AtMost x x
AtMost-refl x = inr (refl, omega arith)

AtMost-trans : (x y z : AngstromValidator) → AtMost x y → AtMost y z → AtMost x z
AtMost-trans x y z a b = ground arith

AtMost-antisym : (x y : AngstromValidator) → AtMost x y → AtMost y x → x.peer_id ≡ y.peer_id
AtMost-antisym x y a b = ground arith

-- The greater of two by `priority`.
greater : AngstromValidator → AngstromValidator → AngstromValidator
greater m x = elim (priority m x) [ Ordering.gt ↦ m | Ordering.lt ↦ x | Ordering.eq ↦ x ]

greater-AtMost : (m x : AngstromValidator) → AtMost m (greater m x) × AtMost x (greater m x)
unfolding greater priority
greater-AtMost m x = ground (arith, eq_of_parts m.priority x.priority)

greater-In : (m x : AngstromValidator) → (greater m x ≡ m) ⊎ (greater m x ≡ x)
unfolding greater
greater-In m x = ground arith

-- The running maximum is above all that came.
max_from-AtMost :
    (m : AngstromValidator) (xs : List AngstromValidator)
    → AtMost m (max_from m xs) × All (λ x. AtMost x (max_from m xs)) xs
unfolding max_from greater
max_from-AtMost m [] = (AtMost-refl m, tt)
max_from-AtMost m (x ∷ xs) =
    let (above, rest) = max_from-AtMost (greater m x) xs in
    let (a, b) = greater-AtMost m x in
    (
      AtMost-trans m (greater m x) (max_from (greater m x) xs) a above,
      (AtMost-trans x (greater m x) (max_from (greater m x) xs) b above, rest),
    )

max_from-In : (m : AngstromValidator) (xs : List AngstromValidator) → In (max_from m xs) (m ∷ xs)
unfolding max_from greater
max_from-In m [] = inl refl
max_from-In m (x ∷ xs) = elim (max_from-In (greater m x) xs) [
  | inr i ↦ inr (inr i)
  | inl e ↦ elim (greater-In m x) [ inl f ↦ inl (e ∙ f) | inr f ↦ inr (inl (e ∙ f)) ]
]

pub All-In :
    (P : AngstromValidator → Type 0) (v : AngstromValidator) (xs : List AngstromValidator)
    → All P xs
    → In v xs
    → P v
All-In P v [] a i = absurd i
All-In P v (x ∷ xs) a (inl e) = rw e a.0
All-In P v (x ∷ xs) a (inr i) = All-In P v xs a.1 i

pub max_by_lem :
    (xs : List AngstromValidator) (m : AngstromValidator)
    → max_by xs ≡ some m
    → In m xs × All (λ x. AtMost x m) xs
unfolding max_by
max_by_lem [] m e = absurd (ground arith)
max_by_lem (x ∷ xs) m e =
    let h : max_from x xs ≡ m = ground arith in
    subst (λ w. In w (x ∷ xs) × All (λ y. AtMost y w) (x ∷ xs)) h
      (max_from-In x xs, max_from-AtMost x xs)

-- Two lists of the same validators have maxima with one peer id.
max_by-agree :
    (xs ys : List AngstromValidator) (a b : AngstromValidator)
    → ((v : AngstromValidator) → In v xs → In v ys)
    → ((v : AngstromValidator) → In v ys → In v xs)
    → max_by xs ≡ some a
    → max_by ys ≡ some b
    → a.peer_id ≡ b.peer_id
max_by-agree xs ys a b f g p q =
    let (in_a, top_a) = max_by_lem xs a p in
    let (in_b, top_b) = max_by_lem ys b q in
    AtMost-antisym a b (All-In (λ x. AtMost x b) a ys top_b (f a in_a))
      (All-In (λ x. AtMost x a) b xs top_a (g b in_b))

pub In-map :
    (f : AngstromValidator → AngstromValidator) (v : AngstromValidator)
    (xs : List AngstromValidator)
    → In v (map f xs)
    → (x : AngstromValidator) × In x xs × (v ≡ f x)
In-map f v [] i = absurd i
In-map f v (x ∷ xs) (inl e) = (x, inl refl, e)
In-map f v (x ∷ xs) (inr i) = let (y, j, e) = In-map f v xs i in (y, inr j, e)

map-In :
    (f : AngstromValidator → AngstromValidator) (x : AngstromValidator)
    (xs : List AngstromValidator)
    → In x xs
    → In (f x) (map f xs)
map-In f x [] i = absurd i
map-In f x (y ∷ xs) (inl e) = inl (ap f e)
map-In f x (y ∷ xs) (inr i) = inr (map-In f x xs i)

map-Subset :
    (f : AngstromValidator → AngstromValidator) (xs ys : List AngstromValidator)
    → ((v : AngstromValidator) → In v xs → In v ys)
    → (v : AngstromValidator) → In v (map f xs)
    → In v (map f ys)
map-Subset f xs ys sub v i =
    let (x, j, e) = In-map f v xs i in
    subst (λ w. In w (map f ys)) (sym e) (map-In f x ys (sub x j))

pub selected :
    (w u : WeightedRoundRobin) (p : ℕ)
    → proposer_selection w ≡ returns (u, p)
    → (m : AngstromValidator) × (max_by (map raise w.validators) ≡ some m) × (m.peer_id ≡ p)
unfolding proposer_selection
selected w u p e = elim (Option-cases (max_by (map raise w.validators))) [
  | inl f ↦ absurd (ground arith)
  | inr (m, f) ↦ (m, f, ground arith)
]

-- Nodes that hold the same validators, with the same powers and priorities, choose the same proposer,
-- in whatever order each of them goes through its set.
pub proposer_selection-agree :
    (w v w' v' : WeightedRoundRobin) (p q : ℕ)
    → ((x : AngstromValidator) → In x w.validators → In x v.validators)
    → ((x : AngstromValidator) → In x v.validators → In x w.validators)
    → proposer_selection w ≡ returns (w', p)
    → proposer_selection v ≡ returns (v', q)
    → p ≡ q
proposer_selection-agree w v w' v' p q f g e h =
    let (a, top_a, is_p) = selected w w' p e in
    let (b, top_b, is_q) = selected v v' q h in
    sym is_p
    ∙ max_by-agree (map raise w.validators) (map raise v.validators) a b
        (map-Subset raise w.validators v.validators f)
        (map-Subset raise v.validators w.validators g) top_a top_b
    ∙ is_q

max_by-eq-none : (xs : List AngstromValidator) → max_by (map raise xs) ≡ none → xs ≡ []
unfolding max_by
max_by-eq-none [] e = refl
max_by-eq-none (x ∷ xs) e = cc

-- The proposer is a validator of the set, and once every priority is raised by the voting power none
-- comes before it; with no validator the call panics.
pub proposer_selection-highest :
    (w : WeightedRoundRobin)
    → ((w.validators ≡ []) × (proposer_selection w ≡ panics))
      ⊎ ((x : AngstromValidator) × (u : WeightedRoundRobin) × (proposer_selection w
            ≡ returns (u, x.peer_id))
          × In x w.validators
          × All (λ y. AtMost y (raise x)) (map raise w.validators))
unfolding proposer_selection
proposer_selection-highest w = elim (Option-cases (max_by (map raise w.validators))) [
  | inl f ↦ inl (max_by-eq-none w.validators f, ground arith)
  | inr (m, f) ↦
      let (i, top) = max_by_lem (map raise w.validators) m f in
      let (x, j, e) = In-map raise m w.validators i in
      inr (
        x,
        record w {
          validators = replace (lower (total_voting_power w.validators) m) (map raise w.validators);
        },
        ground arith,
        j,
        subst (λ v. All (λ y. AtMost y v) (map raise w.validators)) e top,
      )
]
