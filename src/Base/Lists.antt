-- ===== src/Base/Lists.antt =====
-- Lists measured and indexed by native numbers, and predicates over them.
use Prim.Native.Nat.{ℕ, zero, suc, ◌+◌, ◌≤◌, ◌<◌}
use mathlib.Core.Path.{◌≡◌, refl, ap, sym, ◌∙◌}
use mathlib.Core.Logic.{◌⊎◌, ◌↔◌, inl, inr}
use mathlib.Core.Bool.{Bool, false, ◌||◌}
use mathlib.Core.Option.{Option, none, some}
use mathlib.Core.List.{List, [], ◌∷◌, ◌++◌, map}
use native.Mathlib.Omega.{arith}

module _ {ℓ} {A : Type ℓ} where
  abbrev pub length : List A → ℕ
  length [] = 0
  length (x ∷ xs) = suc (length xs)

  abbrev pub get_elem? : List A → ℕ → Option A
  get_elem? [] i = none
  get_elem? (x ∷ xs) zero = some x
  get_elem? (x ∷ xs) (suc i) = get_elem? xs i

  abbrev pub drop : ℕ → List A → List A
  drop zero xs = xs
  drop (suc n) [] = []
  drop (suc n) (x ∷ xs) = drop n xs

  -- `Vec::pop` with its result dropped.
  abbrev pub drop_last : List A → List A
  drop_last [] = []
  drop_last (x ∷ []) = []
  drop_last (x ∷ y ∷ xs) = x ∷ drop_last (y ∷ xs)

  abbrev pub any : (A → Bool) → List A → Bool
  any p [] = false
  any p (x ∷ xs) = p x || any p xs

  pub length-append : (xs ys : List A) → length (xs ++ ys) ≡ length xs + length ys
  length-append [] ys = omega arith
  length-append (x ∷ xs) ys = omega (arith, length-append xs ys)

  -- An index below one that is out of range.
  pub lt_of_get_elem? :
      (xs : List A) (i j : ℕ) (a : A) → get_elem? xs i ≡ none → get_elem? xs j ≡ some a → j < i
  lt_of_get_elem? [] i j a p q = cc
  lt_of_get_elem? (x ∷ xs) zero j a p q = cc
  lt_of_get_elem? (x ∷ xs) (suc i) zero a p q = omega arith
  lt_of_get_elem? (x ∷ xs) (suc i) (suc j) a p q = omega (arith, lt_of_get_elem? xs i j a p q)

  pub get_elem?_lt : (xs : List A) (i : ℕ) (a : A) → get_elem? xs i ≡ some a → i < length xs
  get_elem?_lt [] i a p = cc
  get_elem?_lt (x ∷ xs) zero a p = omega arith
  get_elem?_lt (x ∷ xs) (suc i) a p = omega (arith, get_elem?_lt xs i a p)

  pub length_le_of_get_elem? : (xs : List A) (i : ℕ) → get_elem? xs i ≡ none → length xs ≤ i
  length_le_of_get_elem? [] i p = omega arith
  length_le_of_get_elem? (x ∷ xs) zero p = cc
  length_le_of_get_elem? (x ∷ xs) (suc i) p = omega (arith, length_le_of_get_elem? xs i p)

  pub drop_last-append : (xs : List A) (x : A) → drop_last (xs ++ x ∷ []) ≡ xs
  drop_last-append [] x = refl
  drop_last-append (y ∷ []) x = refl
  drop_last-append (y ∷ z ∷ xs) x = ap (λ l. y ∷ l) (drop_last-append (z ∷ xs) x)

module _ {ℓ κ} {A : Type ℓ} where
  abbrev pub All : (A → Type κ) → List A → Type κ
  All P [] = Unit
  All P (x ∷ xs) = P x × All P xs

  pub All-append : (P : A → Type κ) (xs ys : List A) → All P xs → All P ys → All P (xs ++ ys)
  All-append P [] ys hx hy = hy
  All-append P (x ∷ xs) ys hx hy = (hx.0, All-append P xs ys hx.1 hy)

-- Membership by recursion, which the tactics take apart.
abbrev pub In : {A : Type 0} → A → List A → Type 0
In a [] = ⊥
In a (x ∷ xs) = (a ≡ x) ⊎ In a xs

pub In-append : {A : Type 0} (a : A) (xs ys : List A) → In a xs ⊎ In a ys → In a (xs ++ ys)
In-append a [] ys (inl h) = absurd h
In-append a [] ys (inr h) = h
In-append a (x ∷ xs) ys (inl (inl e)) = inl e
In-append a (x ∷ xs) ys (inl (inr h)) = inr (In-append a xs ys (inl h))
In-append a (x ∷ xs) ys (inr h) = inr (In-append a xs ys (inr h))

pub In-append_iff : {A : Type 0} (a : A) (xs ys : List A) → In a (xs ++ ys) ↔ (In a xs ⊎ In a ys)
In-append_iff a xs ys = (split_at xs, In-append a xs ys)
  where
    split_at : (zs : List _) → In a (zs ++ ys) → In a zs ⊎ In a ys
    split_at [] h = inr h
    split_at (z ∷ zs) (inl e) = inl (inl e)
    split_at (z ∷ zs) (inr h) = elim (split_at zs h) [
      | inl early ↦ inl (inr early)
      | inr late ↦ inr late
    ]

pub In-map :
    {A B : Type 0} (f : A → B) (b : B) (xs : List A)
    → In b (map f xs) ↔ ((a : A) × In a xs × (f a ≡ b))
In-map f b [] = ((λ h. absurd h), λ (a, h, e). h)
In-map f b (x ∷ xs) = (
  λ h. elim h [
    | inl e ↦ (x, inl refl, sym e)
    | inr later ↦ let (a, i, e) = (In-map f b xs).0 later in (a, inr i, e)
  ],
  λ (a, h, e). elim h [
    | inl same ↦ inl (sym e ∙ ap f same)
    | inr later ↦ inr ((In-map f b xs).1 (a, later, e))
  ],
)

pub In-of_get_elem? : {A : Type 0} (xs : List A) (i : ℕ) (a : A) → get_elem? xs i ≡ some a → In a xs
In-of_get_elem? [] i a h = cc
In-of_get_elem? (x ∷ xs) zero a h = ground arith
In-of_get_elem? (x ∷ xs) (suc i) a h = inr (In-of_get_elem? xs i a h)

pub get_elem?_of_In :
    {A : Type 0} (xs : List A) (a : A) → In a xs → (i : ℕ) × (get_elem? xs i ≡ some a)
get_elem?_of_In [] a h = absurd h
get_elem?_of_In (x ∷ xs) a (inl e) = (0, ap some (sym e))
get_elem?_of_In (x ∷ xs) a (inr h) = let (i, at) = get_elem?_of_In xs a h in (suc i, at)
