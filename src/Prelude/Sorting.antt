-- ===== src/Prelude/Sorting.antt =====
-- Python's `sorted` and `min` with a key, for a Boolean order on the elements' keys.
use Prim.Native.Nat.{suc}
use mathlib.Core.Path.{◌≡◌, refl, ap, ◌∙◌}
use mathlib.Core.Logic.{◌⊎◌, inl, inr}
use mathlib.Core.Bool.{Bool, true, false}
use mathlib.Core.List.{List, [], ◌∷◌, map, Memᴰ, Perm}
use mathlib.Core.List.Perm
use native.Mathlib.Omega.{arith}
use incident.Prelude.Tests.{if◌then◌else◌, Bool-cases}
use incident.Prelude.Lists.{length, All, All-intro, All-mem}

-- A total preorder, as every comparison of keys is.
pub record IsOrder {ℓ} {A : Type ℓ} (le : A → A → Bool) : Type ℓ where
  pub total : (a b : A) → le a b ≡ false → le b a ≡ true
  pub trans : (a b c : A) → le a b ≡ true → le b c ≡ true → le a c ≡ true

module _ {ℓ} {A : Type ℓ} (le : A → A → Bool) where
  unfoldable pub insert : A → List A → List A
  insert a [] = a ∷ []
  insert a (x ∷ xs) = let rest = insert a xs in if le a x then a ∷ x ∷ xs else x ∷ rest

  unfoldable pub sort : List A → List A
  unfolding insert
  sort [] = []
  sort (x ∷ xs) = insert x (sort xs)

  -- `min`: the first element that no later one beats.
  unfoldable pub min_from : A → List A → A
  min_from a [] = a
  min_from a (x ∷ xs) = min_from (if le a x then a else x) xs

  -- Ascending: every element is at most all that follow.
  abbrev pub IsSorted : List A → Type ℓ
  IsSorted [] = Unit
  IsSorted (x ∷ xs) = All (λ y. le x y ≡ true) xs × IsSorted xs

  pub insert-perm : (a : A) (xs : List A) → Perm (insert a xs) (a ∷ xs)
  unfolding insert
  insert-perm a [] = Perm.refl _
  insert-perm a (x ∷ xs) = elim (Bool-cases (le a x)) [
    | inl t ↦ rw t (Perm.refl _)
    | inr f ↦ rw f (Perm.trans (Perm.cons x (insert-perm a xs)) (Perm.swap a x xs))
  ]

  pub sort-perm : (xs : List A) → Perm (sort xs) xs
  unfolding sort
  sort-perm [] = Perm.refl _
  sort-perm (x ∷ xs) = Perm.trans (insert-perm x (sort xs)) (Perm.cons x (sort-perm xs))

  pub mem-insert : {b : A} (a : A) (xs : List A) → Memᴰ b (insert a xs) → Memᴰ b (a ∷ xs)
  unfolding insert
  mem-insert a [] m = m
  mem-insert a (x ∷ xs) m = elim (Bool-cases (le a x)) [
    | inl t ↦ rw t at m
    | inr f ↦ past (mem-insert a xs) (rw f at m)
  ]
    where
      past :
          {b : A}
          → (Memᴰ b (insert a xs) → Memᴰ b (a ∷ xs))
          → Memᴰ b (x ∷ insert a xs)
          → Memᴰ b (a ∷ x ∷ xs)
      past ih (Memᴰ.head e) = Memᴰ.tail (Memᴰ.head e)
      past ih (Memᴰ.tail n) = elim (ih n) [
        | Memᴰ.head e ↦ Memᴰ.head e
        | Memᴰ.tail k ↦ Memᴰ.tail (Memᴰ.tail k)
      ]

  pub mem-insert_of : {b : A} (a : A) (xs : List A) → (b ≡ a) ⊎ Memᴰ b xs → Memᴰ b (insert a xs)
  unfolding insert
  mem-insert_of a [] (inl e) = Memᴰ.head e
  mem-insert_of a [] (inr m) = elim m [ ]
  mem-insert_of {b} a (x ∷ xs) h = elim (Bool-cases (le a x)) [
    | inl t ↦ rw t (here h)
    | inr f ↦ rw f (past (mem-insert_of a xs) h)
  ]
    where
      here : (b ≡ a) ⊎ Memᴰ b (x ∷ xs) → Memᴰ b (a ∷ x ∷ xs)
      here (inl e) = Memᴰ.head e
      here (inr m) = Memᴰ.tail m

      past :
          ((b ≡ a) ⊎ Memᴰ b xs → Memᴰ b (insert a xs))
          → (b ≡ a) ⊎ Memᴰ b (x ∷ xs)
          → Memᴰ b (x ∷ insert a xs)
      past ih (inl e) = Memᴰ.tail (ih (inl e))
      past ih (inr (Memᴰ.head e)) = Memᴰ.head e
      past ih (inr (Memᴰ.tail m)) = Memᴰ.tail (ih (inr m))

  pub mem-sort : {b : A} (xs : List A) → Memᴰ b (sort xs) → Memᴰ b xs
  unfolding sort
  mem-sort [] m = m
  mem-sort {b} (x ∷ xs) m = split (mem-sort xs) (mem-insert x (sort xs) m)
    where
      split : (Memᴰ b (sort xs) → Memᴰ b xs) → Memᴰ b (x ∷ sort xs) → Memᴰ b (x ∷ xs)
      split ih (Memᴰ.head e) = Memᴰ.head e
      split ih (Memᴰ.tail n) = Memᴰ.tail (ih n)

  pub mem-sort_of : {b : A} {xs : List A} → Memᴰ b xs → Memᴰ b (sort xs)
  unfolding sort
  mem-sort_of (Memᴰ.head {x = x} {xs = xs} e) = mem-insert_of x (sort xs) (inl e)
  mem-sort_of (Memᴰ.tail {x = x} {xs = xs} m) = mem-insert_of x (sort xs) (inr (mem-sort_of m))

  pub length-insert : (a : A) (xs : List A) → length (insert a xs) ≡ suc (length xs)
  unfolding insert
  length-insert a [] = refl
  length-insert a (x ∷ xs) = ground (arith, length-insert a xs)

  pub length-sort : (xs : List A) → length (sort xs) ≡ length xs
  unfolding sort
  length-sort [] = refl
  length-sort (x ∷ xs) = length-insert x (sort xs) ∙ ap suc (length-sort xs)

  -- The minimum is the first element or one of the others.
  pub mem-min_from : (a : A) (xs : List A) → Memᴰ (min_from a xs) (a ∷ xs)
  unfolding min_from
  mem-min_from a [] = Memᴰ.head refl
  mem-min_from a (x ∷ xs) = elim (Bool-cases (le a x)) [
    | inl t ↦ rw t (widen (mem-min_from a xs))
    | inr f ↦ rw f (Memᴰ.tail (mem-min_from x xs))
  ]
    where
      widen : {b : A} → Memᴰ b (a ∷ xs) → Memᴰ b (a ∷ x ∷ xs)
      widen (Memᴰ.head e) = Memᴰ.head e
      widen (Memᴰ.tail m) = Memᴰ.tail (Memᴰ.tail m)

module _ {ℓ} {A : Type ℓ} {le : A → A → Bool} (order : IsOrder le) where
  insert-IsSorted : (a : A) (xs : List A) → IsSorted le xs → IsSorted le (insert le a xs)
  unfolding insert
  insert-IsSorted a [] h = (tt, tt)
  insert-IsSorted a (x ∷ xs) (above, rest) = elim (Bool-cases (le a x)) [
    | inl t ↦ rw t (
        (
          (
            t,
            All-intro (λ y. le a y ≡ true) xs
                (λ y m. order.trans a x y t (All-mem (λ y. le x y ≡ true) xs above m)),
          ),
          (above, rest),
        ))
    | inr f ↦ rw f (
      All-intro (λ y. le x y ≡ true) (insert le a xs) (λ y m. bound f y (mem-insert le a xs m)),
      insert-IsSorted a xs rest,
    )
  ]
    where
      bound : le a x ≡ false → (y : A) → Memᴰ y (a ∷ xs) → le x y ≡ true
      bound f y (Memᴰ.head e) = rw e (order.total a x f)
      bound f y (Memᴰ.tail m) = All-mem (λ y. le x y ≡ true) xs above m

  -- The result of `sorted` is ascending.
  pub sort-IsSorted : (xs : List A) → IsSorted le (sort le xs)
  unfolding sort
  sort-IsSorted [] = tt
  sort-IsSorted (x ∷ xs) = insert-IsSorted x (sort le xs) (sort-IsSorted xs)

  le_refl : (a : A) → le a a ≡ true
  le_refl a = elim (Bool-cases (le a a)) [ inl t ↦ t | inr f ↦ order.total a a f ]

  min_from-le_first : (a : A) (xs : List A) → le (min_from le a xs) a ≡ true
  unfolding min_from
  min_from-le_first a [] = le_refl a
  min_from-le_first a (x ∷ xs) = elim (Bool-cases (le a x)) [
    | inl t ↦ rw t (min_from-le_first a xs)
    | inr f ↦ rw f (order.trans _ x a (min_from-le_first x xs) (order.total a x f))
  ]

  -- The minimum is at most every element.
  pub min_from-le : {b : A} (a : A) (xs : List A) → Memᴰ b (a ∷ xs) → le (min_from le a xs) b ≡ true
  unfolding min_from
  min_from-le a xs (Memᴰ.head e) = rw e (min_from-le_first a xs)
  min_from-le a (x ∷ xs) (Memᴰ.tail m) = elim (Bool-cases (le a x)) [
    | inl t ↦ rw t (skip t (λ k. min_from-le a xs k) m)
    | inr f ↦ rw f (min_from-le x xs m)
  ]
    where
      skip :
          le a x ≡ true
          → {b : A} → ((k : Memᴰ b (a ∷ xs)) → le (min_from le a xs) b ≡ true)
          → Memᴰ b (x ∷ xs)
          → le (min_from le a xs) b ≡ true
      skip t ih (Memᴰ.head e) = rw e (order.trans _ a x (min_from-le_first a xs) t)
      skip t ih (Memᴰ.tail m) = ih (Memᴰ.tail m)
  min_from-le a [] (Memᴰ.tail m) = elim m [ ]

module _ {ℓ κ} {A : Type ℓ} {B : Type κ} (f : A → B) (le : A → A → Bool) (le' : B → B → Bool)
    (same : (a b : A) → le' (f a) (f b) ≡ le a b) where
  insert-map : (a : A) (xs : List A) → insert le' (f a) (map f xs) ≡ map f (insert le a xs)
  unfolding insert
  insert-map a [] = refl
  insert-map a (x ∷ xs) = elim (Bool-cases (le a x)) [
    | inl t ↦ rw (same, t) refl
    | inr e ↦ rw (same, e) (ap (◌∷◌ (f x)) (insert-map a xs))
  ]

  -- Sorting commutes with a change of the elements that the order does not see.
  pub sort-map : (xs : List A) → sort le' (map f xs) ≡ map f (sort le xs)
  unfolding sort
  sort-map [] = refl
  sort-map (x ∷ xs) = ap (insert le' (f x)) (sort-map xs) ∙ insert-map x (sort le xs)
