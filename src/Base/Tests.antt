-- ===== src/Base/Tests.antt =====
-- Boolean tests on the native numbers, the conditional, and case splits that keep an equation.
use Prim.Native.Nat.{ℕ, compare, Ordering}
use mathlib.Core.Path.{◌≡◌, refl, sym, subst}
use mathlib.Core.Logic.{◌↔◌, ◌⊎◌, inl, inr}
use mathlib.Core.Bool.{Bool, true, false}
use mathlib.Core.Option.{Option, none, some}
use mathlib.Core.List.{List, [], ◌∷◌}
use native.Mathlib.Omega.{arith}

abbrev pub ltb : ℕ → ℕ → Bool
ltb a b = elim (compare a b) [ Ordering.lt ↦ true | _ ↦ false ]

abbrev pub leb : ℕ → ℕ → Bool
leb a b = elim (compare a b) [ Ordering.gt ↦ false | _ ↦ true ]

infix 50 ◌==◌
abbrev pub ◌==◌ : ℕ → ℕ → Bool
a == b = elim (compare a b) [ Ordering.eq ↦ true | _ ↦ false ]

infix 1 if◌then◌else◌
abbrev pub if◌then◌else◌ {ℓ} : {A : Type ℓ} → Bool → A → A → A
if true then x else y = x
if false then x else y = y

pub ==_iff : (a b : ℕ) → ((a == b) ≡ true) ↔ (a ≡ b)
==_iff a b = ground arith

pub Bool-cases : (b : Bool) → (b ≡ true) ⊎ (b ≡ false)
Bool-cases true = inl refl
Bool-cases false = inr refl

pub Option-cases {ℓ} : {A : Type ℓ} (o : Option A) → (o ≡ none) ⊎ ((a : A) × (o ≡ some a))
Option-cases none = inl refl
Option-cases (some a) = inr (a, refl)

pub List-cases {ℓ} :
    {A : Type ℓ} (xs : List A) → (xs ≡ []) ⊎ ((x : A) × (rest : List A) × (xs ≡ x ∷ rest))
List-cases [] = inl refl
List-cases (x ∷ xs) = inr (x, xs, refl)

-- `Result<A, E>`
pub data Result {ℓ κ} (A : Type ℓ) (E : Type κ) : Type (ℓ ⊔ κ) where
  ok : A → Result A E
  err : E → Result A E

pub Result-cases {ℓ κ} :
    {A : Type ℓ} {E : Type κ} (r : Result A E) → ((a : A) × (r ≡ ok a)) ⊎ ((e : E) × (r ≡ err e))
Result-cases (ok a) = inl (a, refl)
Result-cases (err e) = inr (e, refl)

-- `Result::and_then`, which is also what `?` and an early return of an error do.
abbrev pub and_then {ℓ κ μ} :
    {A : Type ℓ} {B : Type κ} {E : Type μ} → Result A E → (A → Result B E) → Result B E
and_then (ok a) f = f a
and_then (err e) f = err e

-- Constructors are told apart, and are injective.
module _ {ℓ} {A : Type ℓ} where
  pub none-ne-some : {a : A} → none ≡ some a → ⊥
  none-ne-some e = cc

  pub some_injective : {a b : A} → some a ≡ some b → a ≡ b
  some_injective e = cc

module _ {ℓ κ} {A : Type ℓ} {E : Type κ} where
  abbrev ok_of : A → Result A E
  ok_of = ok

  abbrev err_of : E → Result A E
  err_of = err

  pub ok_injective : {a b : A} → ok_of a ≡ ok b → a ≡ b
  ok_injective e = cc

  pub err-ne-ok : {e : E} {a : A} → err_of e ≡ ok a → ⊥
  err-ne-ok e = cc

pub false-ne-true : false ≡ true → ⊥
false-ne-true e = cc

-- A chain succeeds with what its first step and then the rest give.
pub and_then_ok {ℓ κ μ} :
    {A : Type ℓ} {B : Type κ} {E : Type μ} (r : Result A E) (f : A → Result B E) (b : B)
    → and_then r f ≡ ok b
    → (a : A) × (r ≡ ok a) × (f a ≡ ok b)
and_then_ok (ok a) f b e = (a, refl, e)
and_then_ok (err failure) f b e = absurd (err-ne-ok e)

-- A chain succeeds exactly if its first step does and then the rest.
pub and_then_iff {ℓ κ μ} :
    {A : Type ℓ} {B : Type κ} {E : Type μ} (r : Result A E) (f : A → Result B E)
    → ((b : B) × (and_then r f ≡ ok b)) ↔ ((a : A) × (r ≡ ok a) × (b : B) × (f a ≡ ok b))
and_then_iff (ok a) f = (
  (λ (b, e). (a, refl, b, e)),
  λ (a2, e, b, h). (b, subst (λ x. f x ≡ ok b) (sym (ok_injective e)) h),
)
and_then_iff (err e) f = ((λ (b, h). absurd (err-ne-ok h)), λ (a, h, b, _). absurd (err-ne-ok h))
