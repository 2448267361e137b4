-- ===== src/Consensus/Rounds/Quorum.antt =====
-- What a quorum counts.
use appsec_seq.Base.{
  ℕ, suc, ◌+◌, ◌≡◌, refl, Bool, false, ◌&&◌, List, [], ◌∷◌, ◌++◌, Option, none, some, if◌then◌else◌,
  leb, arith, Bool-cases, inl, inr,
}
use appsec_seq.Base.Maps.{Eq, Map, get, insert, get-insert, IsMap, Absent, get_of_Absent}
use appsec_seq.Consensus.{PreProposal, PreProposalAggregation}
use appsec_seq.Consensus.Rounds.{
  all_limit, all_searcher, all_pre_proposals, matching_engine_output, SharedRoundState, contains,
  counts, at_least, or_zero, filter_quorum_orders, two_thirds_of_validation_set,
}

-- Whether a count is there and is large enough.
abbrev reaches : ℕ → Option ℕ → Bool
reaches n none = false
reaches n (some k) = leb n k

module _ {ℓ} {A : Type ℓ} ⦃e : Eq A⦄ where
  -- How often an element occurs.
  unfoldable pub occurrences : A → List A → ℕ
  occurrences x [] = 0
  occurrences x (y ∷ ys) = (if e.beq y x then 1 else 0) + occurrences x ys

  get-counts :
      (x : A) (acc : Map A ℕ) (xs : List A)
      → get x (counts acc xs) ≡ (
          if leb 1 (occurrences x xs)
          then some (or_zero (get x acc) + occurrences x xs)
          else get x acc)
  unfolding counts occurrences
  get-counts x acc [] = refl
  get-counts x acc (y ∷ ys) =
      let acc' = insert y (suc (or_zero (get y acc))) acc in
      ground
        (arith, get-counts x acc' ys, get-insert x y (suc (or_zero (get y acc))) acc, e.beq_iff y x)

  insert-Absent :
      (j k : A) (v : ℕ) (m : Map A ℕ) → e.beq k j ≡ false → Absent j m → Absent j (insert k v m)
  unfolding insert
  insert-Absent j k v [] n a = ground arith
  insert-Absent j k v ((i, w) ∷ m) n a = ground (arith, insert-Absent j k v m n a.1, e.beq_iff i k)

  insert-IsMap : (k : A) (v : ℕ) (m : Map A ℕ) → IsMap m → IsMap (insert k v m)
  unfolding insert
  insert-IsMap k v [] a = (tt, tt)
  insert-IsMap k v ((i, w) ∷ m) a = elim (Bool-cases (e.beq i k)) [
    | inl t ↦ ground arith
    | inr f ↦
        ground (arith, insert-Absent i k v m, insert-IsMap k v m a.1, e.beq_iff i k, e.beq_iff k i)
  ]

  counts-IsMap : (acc : Map A ℕ) (xs : List A) → IsMap acc → IsMap (counts acc xs)
  unfolding counts
  counts-IsMap acc [] a = a
  counts-IsMap acc (y ∷ ys) a =
      counts-IsMap (insert y (suc (or_zero (get y acc))) acc) ys
        (insert-IsMap y (suc (or_zero (get y acc))) acc a)

  contains-at_least :
      (x : A) (n : ℕ) (m : Map A ℕ) → IsMap m → contains x (at_least n m) ≡ reaches n (get x m)
  unfolding contains at_least get
  contains-at_least x n [] a = refl
  contains-at_least x n ((o, k) ∷ m) a =
      ground (arith, contains-at_least x n m a.1, get_of_Absent o m a.0, e.beq_iff o x)

  occurrences-append :
      (x : A) (xs ys : List A) → occurrences x (xs ++ ys) ≡ occurrences x xs + occurrences x ys
  unfolding occurrences
  occurrences-append x [] ys = omega arith
  occurrences-append x (z ∷ xs) ys = omega (arith, occurrences-append x xs ys)

module _ {L S : Type 0} where
  filter_quorum_orders_exact :
      {A : Type 0}
      → ⦃e : Eq A⦄ → (s : SharedRoundState L S) (x : A) (input : List A)
      → let n = occurrences x input in
        contains x (filter_quorum_orders s input)
        ≡ (leb 1 n && leb (two_thirds_of_validation_set s) n)
  unfolding filter_quorum_orders get
  filter_quorum_orders_exact s x input = ground (
    arith,
    contains-at_least x (two_thirds_of_validation_set s) (counts [] input)
        (counts-IsMap [] input tt),
    get-counts x [] input,
  )

  -- How often an order stands in the pre-proposals of an aggregation, and of all aggregations.
  unfoldable pub votes :
      {A : Type 0} → ⦃e : Eq A⦄ → (PreProposal L S → List A) → A → List (PreProposal L S) → ℕ
  unfolding occurrences
  votes f x [] = 0
  votes f x (p ∷ ps) = occurrences x (f p) + votes f x ps

  unfoldable pub all_votes :
      {A : Type 0}
      → ⦃e : Eq A⦄ → (PreProposal L S → List A)
      → A
      → List (PreProposalAggregation L S)
      → ℕ
  unfolding votes
  all_votes f x [] = 0
  all_votes f x (a ∷ rest) = votes f x a.pre_proposals + all_votes f x rest

  votes-append :
      {A : Type 0}
      → ⦃e : Eq A⦄ → (f : PreProposal L S → List A) (x : A) (ps qs : List (PreProposal L S))
      → votes f x (ps ++ qs) ≡ votes f x ps + votes f x qs
  unfolding votes
  votes-append f x [] qs = omega arith
  votes-append f x (p ∷ ps) qs = omega (arith, votes-append f x ps qs)

  votes-all_pre_proposals :
      {A : Type 0}
      → ⦃e : Eq A⦄
      → (f : PreProposal L S → List A) (x : A) (aggs : List (PreProposalAggregation L S))
      → votes f x (all_pre_proposals aggs) ≡ all_votes f x aggs
  unfolding all_pre_proposals all_votes votes
  votes-all_pre_proposals f x [] = refl
  votes-all_pre_proposals f x (a ∷ rest) = ground (
    arith,
    votes-append f x a.pre_proposals (all_pre_proposals rest),
    votes-all_pre_proposals f x rest,
  )

  module _ ⦃el : Eq L⦄ ⦃es : Eq S⦄ where
    occurrences-all_limit :
        (x : L) (ps : List (PreProposal L S))
        → occurrences x (all_limit ps) ≡ votes (λ p. p.limit) x ps
    unfolding all_limit votes
    occurrences-all_limit x [] = ground arith
    occurrences-all_limit x (p ∷ ps) =
        ground (arith, occurrences-append x p.limit (all_limit ps), occurrences-all_limit x ps)

    occurrences-all_searcher :
        (x : S) (ps : List (PreProposal L S))
        → occurrences x (all_searcher ps) ≡ votes (λ p. p.searcher) x ps
    unfolding all_searcher votes
    occurrences-all_searcher x [] = ground arith
    occurrences-all_searcher x (p ∷ ps) =
        ground
          (arith, occurrences-append x p.searcher (all_searcher ps), occurrences-all_searcher x ps)

    -- A limit order, and an order of a searcher, is among the orders for the matching engine exactly when it
    -- occurs, and as often as two thirds of the validators at least, in the pre-proposals of the given
    -- aggregations, where a pre-proposal counts again for each aggregation that it stands in.
    pub matching_engine_output_exact :
        (s : SharedRoundState L S) (aggs : List (PreProposalAggregation L S)) (x : L) (y : S)
        → let n = two_thirds_of_validation_set s in
          let k = all_votes (λ p. p.limit) x aggs in
          let m = all_votes (λ p. p.searcher) y aggs in
          (contains x (matching_engine_output s aggs).0 ≡ (leb 1 k && leb n k))
          × (contains y (matching_engine_output s aggs).1 ≡ (leb 1 m && leb n m))
    unfolding matching_engine_output
    matching_engine_output_exact s aggs x y =
        let ps = all_pre_proposals aggs in
        (
          ground (
            arith,
            filter_quorum_orders_exact s x (all_limit ps),
            occurrences-all_limit x ps,
            votes-all_pre_proposals (λ p. p.limit) x aggs,
          ),
          ground (
            arith,
            filter_quorum_orders_exact s y (all_searcher ps),
            occurrences-all_searcher y ps,
            votes-all_pre_proposals (λ p. p.searcher) y aggs,
          ),
        )
