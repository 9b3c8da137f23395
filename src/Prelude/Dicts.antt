-- ===== src/Prelude/Dicts.antt =====
-- Python's dictionaries with identifiers for keys, in the order of insertion.
use Prim.Native.Nat.{ℕ}
use mathlib.Core.Path.{◌≡◌, refl}
use mathlib.Core.Bool.{false}
use mathlib.Core.Option.{Option, none, some}
use mathlib.Core.List.{List, [], ◌∷◌}
use native.Mathlib.Omega.{arith}
use incident.Prelude.Tests.{if◌then◌else◌, ◌==◌, Bool-split, ==-refl}

module _ {ℓ} {A : Type ℓ} where
  unfoldable pub lookup : ℕ → List (ℕ × A) → Option A
  lookup k [] = none
  lookup k ((j, a) ∷ d) = let rest = lookup k d in if j == k then some a else rest

  unfoldable pub put : ℕ → A → List (ℕ × A) → List (ℕ × A)
  put k a [] = (k, a) ∷ []
  put k a ((j, b) ∷ d) = let rest = put k a d in if j == k then (k, a) ∷ d else (j, b) ∷ rest

  unfoldable pub delete : ℕ → List (ℕ × A) → List (ℕ × A)
  delete k [] = []
  delete k ((j, b) ∷ d) = let rest = delete k d in if j == k then rest else (j, b) ∷ rest

  pub lookup-put : (k : ℕ) (a : A) (d : List (ℕ × A)) → lookup k (put k a d) ≡ some a
  unfolding lookup put
  lookup-put k a [] = rw (==-refl k) refl
  lookup-put k a ((j, b) ∷ d) =
      Bool-split (j == k) (λ t. rw t (rw (==-refl k) refl)) (λ f. rw f (rw f (lookup-put k a d)))

  pub lookup-put_other :
      (i k : ℕ) (a : A) (d : List (ℕ × A)) → (k == i) ≡ false → lookup i (put k a d) ≡ lookup i d
  unfolding lookup put
  lookup-put_other i k a [] h = rw h refl
  lookup-put_other i k a ((j, b) ∷ d) h =
      Bool-split (j == k)
        (λ t. let f : (j == i) ≡ false = ground (arith, t, h) in rw t (rw h (rw f refl)))
        (λ f. rw f (rw (lookup-put_other i k a d h) refl))

  pub lookup-delete : (k : ℕ) (d : List (ℕ × A)) → lookup k (delete k d) ≡ none
  unfolding lookup delete
  lookup-delete k [] = refl
  lookup-delete k ((j, b) ∷ d) =
      Bool-split (j == k) (λ t. rw t (lookup-delete k d)) (λ f. rw f (rw f (lookup-delete k d)))

  pub lookup-delete_other :
      (i k : ℕ) (d : List (ℕ × A)) → (k == i) ≡ false → lookup i (delete k d) ≡ lookup i d
  unfolding lookup delete
  lookup-delete_other i k [] h = refl
  lookup-delete_other i k ((j, b) ∷ d) h =
      Bool-split (j == k)
        (λ t.
          let f : (j == i) ≡ false = ground (arith, t, h) in
          rw t (rw f (lookup-delete_other i k d h)))
        (λ f. rw f (rw (lookup-delete_other i k d h) refl))
