-- ===== src/Base/Maps.antt =====
-- `HashMap` and `BTreeMap`: association lists with one entry to a key. A map read through `get`,
-- `insert` and `remove` does not show the order of its entries; iteration follows the list.
use Prim.Native.Nat.{ℕ}
use mathlib.Core.Path.{◌≡◌, refl}
use mathlib.Core.Logic.{◌↔◌}
use mathlib.Core.Bool.{Bool, true, false}
use mathlib.Core.Option.{Option, none, some}
use mathlib.Core.List.{List, [], ◌∷◌}
use native.Mathlib.Omega.{arith}
use appsec_seq.Base.Tests.{◌==◌, ==_iff, if◌then◌else◌, is_some}

-- Key equality.
pub record Eq {ℓ} (A : Type ℓ) : Type ℓ where
  pub beq : A → A → Bool
  pub beq_iff : (a b : A) → (beq a b ≡ true) ↔ (a ≡ b)

instance abbrev pub nat_eq : Eq ℕ
nat_eq = record { beq = ◌==◌; beq_iff = ==_iff }

abbrev pub Map {ℓ κ} : Type ℓ → Type κ → Type (ℓ ⊔ κ)
Map K V = List (K × V)

-- What a change of each value does to one that is read.
abbrev pub change {ℓ} : {V : Type ℓ} → (V → V) → Option V → Option V
change f none = none
change f (some v) = some (f v)

module _ {ℓ κ} {K : Type ℓ} {V : Type κ} ⦃e : Eq K⦄ where
  unfoldable pub get : K → Map K V → Option V
  get k [] = none
  get k ((j, v) ∷ m) = if e.beq j k then some v else get k m

  unfoldable pub insert : K → V → Map K V → Map K V
  insert k v [] = (k, v) ∷ []
  insert k v ((j, w) ∷ m) = if e.beq j k then (j, v) ∷ m else (j, w) ∷ insert k v m

  unfoldable pub remove : K → Map K V → Map K V
  remove k [] = []
  remove k ((j, w) ∷ m) = let rest = remove k m in if e.beq j k then rest else (j, w) ∷ rest

  unfoldable pub contains_key : K → Map K V → Bool
  contains_key k m = is_some (get k m)

  pub get-insert :
      (j k : K) (v : V) (m : Map K V)
      → get j (insert k v m) ≡ (if e.beq k j then some v else get j m)
  unfolding get insert
  get-insert j k v [] = refl
  get-insert j k v ((i, w) ∷ m) =
      ground (arith, e.beq_iff k j, e.beq_iff i k, e.beq_iff i j, get-insert j k v m)

  pub get-remove :
      (j k : K) (m : Map K V) → get j (remove k m) ≡ (if e.beq k j then none else get j m)
  unfolding get remove
  get-remove j k [] = ground arith
  get-remove j k ((i, w) ∷ m) =
      ground (arith, e.beq_iff k j, e.beq_iff i k, e.beq_iff i j, get-remove j k m)

  pub get-insert_self : (k : K) (v : V) (m : Map K V) → get k (insert k v m) ≡ some v
  get-insert_self k v m = ground (arith, get-insert k k v m, e.beq_iff k k)

  pub get-remove_self : (k : K) (m : Map K V) → get k (remove k m) ≡ none
  get-remove_self k m = ground (arith, get-remove k k m, e.beq_iff k k)

  -- `values`, in the order of the entries.
  unfoldable pub values : Map K V → List V
  values [] = []
  values ((j, v) ∷ m) = v ∷ values m

  unfoldable pub keys : Map K V → List K
  keys [] = []
  keys ((j, v) ∷ m) = j ∷ keys m

  -- `iter_mut` with a change of each value.
  unfoldable pub map_values : (V → V) → Map K V → Map K V
  map_values f [] = []
  map_values f ((j, v) ∷ m) = (j, f v) ∷ map_values f m

  pub get-map_values :
      (f : V → V) (k : K) (m : Map K V) → get k (map_values f m) ≡ change f (get k m)
  unfolding get map_values
  get-map_values f k [] = refl
  get-map_values f k ((j, v) ∷ m) = ground (arith, get-map_values f k m)

  -- A map from a list of keys, each with the same first value.
  unfoldable pub from_keys : List K → V → Map K V
  from_keys [] v = []
  from_keys (k ∷ ks) v = insert k v (from_keys ks v)

  -- `retain`, by a test of the key and the value.
  unfoldable pub retain : (K → V → Bool) → Map K V → Map K V
  retain test [] = []
  retain test ((j, v) ∷ m) = let rest = retain test m in if test j v then (j, v) ∷ rest else rest

  -- Each key stands once.
  abbrev pub Absent : K → Map K V → Type ℓ
  Absent k [] = Unit
  Absent k ((j, v) ∷ m) = (e.beq j k ≡ false) × Absent k m

  pub get_of_Absent : (k : K) (m : Map K V) → Absent k m → get k m ≡ none
  unfolding get
  get_of_Absent k [] a = refl
  get_of_Absent k ((j, v) ∷ m) a = ground (arith, get_of_Absent k m a.1)

  abbrev pub IsMap : Map K V → Type ℓ
  IsMap [] = Unit
  IsMap ((j, v) ∷ m) = Absent j m × IsMap m

-- A set is a map to the unit type.
abbrev pub HashSet {ℓ} : Type ℓ → Type ℓ
HashSet K = Map K (Unit {0})

pub beq_of_discrete {ℓ} : {A : Type ℓ} → Discrete A → A → A → Bool
beq_of_discrete d a b = elim (d a b) [ yes h ↦ true | no h ↦ false ]

pub beq_of_discrete_iff {ℓ} :
    {A : Type ℓ} (d : Discrete A) (a b : A) → (beq_of_discrete d a b ≡ true) ↔ (a ≡ b)
unfolding beq_of_discrete
beq_of_discrete_iff d a b =
    elim (d a b) as (λ x. ((elim x [ yes h ↦ true | no h ↦ false ]) ≡ true) ↔ (a ≡ b)) [
      | yes h ↦ ((λ _. h), (λ _. refl))
      | no h ↦ ((λ e. absurd (ground arith)), (λ e. absurd (h e)))
    ]
