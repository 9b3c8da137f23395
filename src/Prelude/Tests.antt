-- ===== src/Prelude/Tests.antt =====
-- Boolean tests on native numbers, conditionals, and splits that keep an equation.
use Prim.Native.Nat.{ℕ, ◌≤◌, ◌<◌, compare, Ordering}
use mathlib.Core.Path.{◌≡◌, refl}
use mathlib.Core.Logic.{◌⊎◌, ◌↔◌, inl, inr}
use mathlib.Core.Bool.{Bool, true, false}
use mathlib.Core.Option.{Option, none, some}
use native.Mathlib.Omega.{arith}

abbrev pub ltb : ℕ → ℕ → Bool
ltb a b = elim (compare a b) [ Ordering.lt ↦ true | _ ↦ false ]

abbrev pub leb : ℕ → ℕ → Bool
leb a b = elim (compare a b) [ Ordering.gt ↦ false | _ ↦ true ]

infix 50 ◌==◌
abbrev pub ◌==◌ : ℕ → ℕ → Bool
a == b = elim (compare a b) [ Ordering.eq ↦ true | _ ↦ false ]

infix 1 if◌then◌else◌
abbrev pub if◌then◌else◌ {ℓ} : {A : Type ℓ} → Bool → A → A → A
if true then x else y = x
if false then x else y = y

pub ltb→lt : (a b : ℕ) → ltb a b ≡ true → a < b
ltb→lt a b h = ground arith

pub leb→le : (a b : ℕ) → leb a b ≡ true → a ≤ b
leb→le a b h = ground arith

pub ==_iff : (a b : ℕ) → ((a == b) ≡ true) ↔ (a ≡ b)
==_iff a b = (λ h. ground arith, λ h. ground arith)

pub ==-refl : (a : ℕ) → (a == a) ≡ true
==-refl a = ground arith

-- To split on a computed test and keep the equation.
pub Bool-cases : (b : Bool) → (b ≡ true) ⊎ (b ≡ false)
Bool-cases true = inl refl
Bool-cases false = inr refl

pub Option-cases {ℓ} : {A : Type ℓ} (o : Option A) → (o ≡ none) ⊎ ((a : A) × (o ≡ some a))
Option-cases none = inl refl
Option-cases (some a) = inr (a, refl)

-- A nullable reference that is compared with a value.
abbrev pub is : Option ℕ → ℕ → Bool
is none a = false
is (some b) a = b == a

pub is_iff : (o : Option ℕ) (a : ℕ) → (is o a ≡ true) ↔ (o ≡ some a)
is_iff none a = (λ h. cc, λ h. cc)
is_iff (some b) a = (λ h. ground arith, λ h. ground arith)

-- The same splits as functions, for a goal that is a record.
pub Bool-split {ℓ} : {P : Type ℓ} (b : Bool) → (b ≡ true → P) → (b ≡ false → P) → P
Bool-split true f g = f refl
Bool-split false f g = g refl

pub Option-split {ℓ κ} :
    {A : Type ℓ} {P : Type κ} (o : Option A) → (o ≡ none → P) → ((a : A) → o ≡ some a → P) → P
Option-split none f g = f refl
Option-split (some a) f g = g a refl
