-- ===== src/Prelude/Queries.antt =====
-- SELECT ... WHERE, EXISTS and UPDATE ... WHERE over a table that is a list of rows.
use Prim.Native.Nat.{ℕ, suc, ◌+◌}
use mathlib.Core.Path.{◌≡◌, refl, ap, sym, ◌∙◌}
use mathlib.Core.Logic.{inl, inr}
use mathlib.Core.Bool.{Bool, true, false, ◌||◌, ◌&&◌}
use mathlib.Core.Option.{Option, none, some}
use mathlib.Core.List.{List, [], ◌∷◌, ◌++◌, map, Memᴰ}
use native.Mathlib.Omega.{arith}
use incident.Prelude.Tests.{if◌then◌else◌, Bool-cases}
use incident.Prelude.Lists.{length}

module _ {ℓ} {A : Type ℓ} where
  unfoldable pub select : (A → Bool) → List A → List A
  select p [] = []
  select p (x ∷ xs) = let rest = select p xs in if p x then x ∷ rest else rest

  unfoldable pub exists : (A → Bool) → List A → Bool
  exists p [] = false
  exists p (x ∷ xs) = p x || exists p xs

  unfoldable pub all : (A → Bool) → List A → Bool
  all p [] = true
  all p (x ∷ xs) = p x && all p xs

  -- `scalar_one_or_none` over a unique column, and `next(... for ... if ...)`: the first match.
  unfoldable pub find? : (A → Bool) → List A → Option A
  find? p [] = none
  find? p (x ∷ xs) = let rest = find? p xs in if p x then some x else rest

  unfoldable pub update : (A → Bool) → (A → A) → List A → List A
  update p f [] = []
  update p f (x ∷ xs) = (if p x then f x else x) ∷ update p f xs

  unfoldable pub count : (A → Bool) → List A → ℕ
  count p [] = 0
  count p (x ∷ xs) = (if p x then 1 else 0) + count p xs

  keep_sound :
      (p : A → Bool) {a x : A} {xs rest : List A}
      → (Memᴰ a rest → Memᴰ a xs × (p a ≡ true))
      → (b : Bool) → p x ≡ b
      → Memᴰ a (if b then x ∷ rest else rest)
      → Memᴰ a (x ∷ xs) × (p a ≡ true)
  keep_sound p ih true e (Memᴰ.head q) = (Memᴰ.head q, rw q e)
  keep_sound p ih true e (Memᴰ.tail m) = (Memᴰ.tail (ih m).0, (ih m).1)
  keep_sound p ih false e m = (Memᴰ.tail (ih m).0, (ih m).1)

  pub mem-select :
      (p : A → Bool) {a : A} (xs : List A) → Memᴰ a (select p xs) → Memᴰ a xs × (p a ≡ true)
  unfolding select
  mem-select p [] h = elim h [ ]
  mem-select p (x ∷ xs) h = keep_sound p (mem-select p xs) (p x) refl h

  pub mem-select_of :
      (p : A → Bool) {a : A} {xs : List A} → Memᴰ a xs → p a ≡ true → Memᴰ a (select p xs)
  unfolding select
  mem-select_of p (Memᴰ.head {x = x} {xs = xs} q) e = rw (ap p (sym q) ∙ e) (Memᴰ.head q)
  mem-select_of p (Memᴰ.tail {x = x} {xs = xs} m) e = elim (Bool-cases (p x)) [
    | inl t ↦ rw t (Memᴰ.tail (mem-select_of p m e))
    | inr f ↦ rw f (mem-select_of p m e)
  ]

  pub exists_witness :
      (p : A → Bool) (xs : List A) → exists p xs ≡ true → (a : A) × Memᴰ a xs × (p a ≡ true)
  unfolding exists
  exists_witness p [] h = cc
  exists_witness p (x ∷ xs) h = elim (Bool-cases (p x)) [
    | inl t ↦ (x, Memᴰ.head refl, t)
    | inr f ↦ let (a, m, e) = exists_witness p xs (rw f at h) in (a, Memᴰ.tail m, e)
  ]

  pub exists_of_mem :
      (p : A → Bool) {a : A} {xs : List A} → Memᴰ a xs → p a ≡ true → exists p xs ≡ true
  unfolding exists
  exists_of_mem p (Memᴰ.head q) e = rw (ap p (sym q) ∙ e)
  exists_of_mem p (Memᴰ.tail {x = x} {xs = xs} m) e = ground (arith, exists_of_mem p m e)

  pub all_of_mem : (p : A → Bool) {a : A} {xs : List A} → all p xs ≡ true → Memᴰ a xs → p a ≡ true
  unfolding all
  all_of_mem p h (Memᴰ.head {x = x} {xs = xs} q) = ground (arith, ap p q)
  all_of_mem p h (Memᴰ.tail {x = x} {xs = xs} m) = all_of_mem p (ground arith) m

  pub all_intro :
      (p : A → Bool) (xs : List A) → ((a : A) → Memᴰ a xs → p a ≡ true) → all p xs ≡ true
  unfolding all
  all_intro p [] h = refl
  all_intro p (x ∷ xs) h =
      ground (arith, h x (Memᴰ.head refl), all_intro p xs (λ a m. h a (Memᴰ.tail m)))

  pub exists-false :
      (p : A → Bool) (xs : List A) → ((a : A) → Memᴰ a xs → p a ≡ false) → exists p xs ≡ false
  unfolding exists
  exists-false p [] h = refl
  exists-false p (x ∷ xs) h =
      ground (arith, h x (Memᴰ.head refl), exists-false p xs (λ a m. h a (Memᴰ.tail m)))

  pub mem-find? :
      (p : A → Bool) {a : A} (xs : List A) → find? p xs ≡ some a → Memᴰ a xs × (p a ≡ true)
  unfolding find?
  mem-find? p [] h = cc
  mem-find? p (x ∷ xs) h = elim (Bool-cases (p x)) [
    | inl t ↦ (Memᴰ.head (ground arith), ground arith)
    | inr f ↦ let (m, e) = mem-find? p xs (ground arith) in (Memᴰ.tail m, e)
  ]

  pub find?-none :
      (p : A → Bool) {a : A} {xs : List A} → find? p xs ≡ none → Memᴰ a xs → p a ≡ false
  unfolding find?
  find?-none p h (Memᴰ.head {x = x} {xs = xs} q) = ground (arith, ap p q)
  find?-none p h (Memᴰ.tail {x = x} {xs = xs} m) = find?-none p (ground arith) m

  pub find?-none_of : (p : A → Bool) (xs : List A) → exists p xs ≡ false → find? p xs ≡ none
  unfolding find? exists
  find?-none_of p [] h = refl
  find?-none_of p (x ∷ xs) h = ground (arith, find?-none_of p xs)

  pub find?-append_none :
      (p : A → Bool) (xs : List A) (x : A)
      → find? p xs ≡ none
      → p x ≡ true
      → find? p (xs ++ x ∷ []) ≡ some x
  unfolding find?
  find?-append_none p [] x h k = ground arith
  find?-append_none p (y ∷ xs) x h k = ground (arith, find?-append_none p xs x)

  pub find?-update :
      (p : A → Bool) (b : A) {a : A} (xs : List A)
      → p b ≡ true
      → find? p xs ≡ some a
      → find? p (update p (λ _. b) xs) ≡ some b
  unfolding find? update
  find?-update p b [] k h = cc
  find?-update p b {a} (x ∷ xs) k h = ground (arith, find?-update p b {a = a} xs k)

  -- An UPDATE after which no row matches.
  pub find?-update-none :
      (p q : A → Bool) (f : A → A) (xs : List A)
      → ((a : A) → q a ≡ true → p (f a) ≡ false)
      → ((a : A) → q a ≡ false → p a ≡ false)
      → find? p (update q f xs) ≡ none
  unfolding find? update
  find?-update-none p q f [] h k = refl
  find?-update-none p q f (x ∷ xs) h k = ground (arith, find?-update-none p q f xs h k, h x, k x)

  pub select-nil_of : (p : A → Bool) (xs : List A) → exists p xs ≡ false → select p xs ≡ []
  unfolding select exists
  select-nil_of p [] h = refl
  select-nil_of p (x ∷ xs) h = ground (arith, select-nil_of p xs)

  pub length-select : (p : A → Bool) (xs : List A) → length (select p xs) ≡ count p xs
  unfolding select count
  length-select p [] = refl
  length-select p (x ∷ xs) = ground (arith, length-select p xs)

  pub count-append : (p : A → Bool) (xs ys : List A) → count p (xs ++ ys) ≡ count p xs + count p ys
  unfolding count
  count-append p [] ys = omega arith
  count-append p (x ∷ xs) ys = ground (arith, count-append p xs ys)

  pub length-update : (p : A → Bool) (f : A → A) (xs : List A) → length (update p f xs) ≡ length xs
  unfolding update
  length-update p f [] = refl
  length-update p f (x ∷ xs) = ap suc (length-update p f xs)

  pub mem-update :
      (p : A → Bool) (f : A → A) {a : A} {xs : List A}
      → Memᴰ a xs
      → Memᴰ (if p a then f a else a) (update p f xs)
  unfolding update
  mem-update p f (Memᴰ.head e) = Memᴰ.head (ap (λ (x : A). if p x then f x else x) e)
  mem-update p f (Memᴰ.tail m) = Memᴰ.tail (mem-update p f m)

  -- An UPDATE that clears the rows counted by `q` leaves none of them.
  pub count-update_clear :
      (p q : A → Bool) (f : A → A) (xs : List A)
      → ((a : A) → p a ≡ true → q (f a) ≡ false)
      → ((a : A) → p a ≡ false → q a ≡ false)
      → count q (update p f xs) ≡ 0
  unfolding count update
  count-update_clear p q f [] h k = refl
  count-update_clear p q f (x ∷ xs) h k = ground (arith, count-update_clear p q f xs h k, h x, k x)

  -- An UPDATE that does not touch what `q` reads keeps its count.
  pub count-update_keep :
      (p q : A → Bool) (f : A → A) (xs : List A)
      → ((a : A) → p a ≡ true → q (f a) ≡ q a)
      → count q (update p f xs) ≡ count q xs
  unfolding count update
  count-update_keep p q f [] h = refl
  count-update_keep p q f (x ∷ xs) h = ground (arith, count-update_keep p q f xs h, h x)

  pub select-ext :
      (p q : A → Bool) (xs : List A) → ((a : A) → p a ≡ q a) → select p xs ≡ select q xs
  unfolding select
  select-ext p q [] h = refl
  select-ext p q (x ∷ xs) h = ground (arith, h x, select-ext p q xs h)

module _ {ℓ κ} {A : Type ℓ} {B : Type κ} where
  pub select-map :
      (f : A → B) (p : B → Bool) (xs : List A)
      → select p (map f xs) ≡ map f (select (λ a. p (f a)) xs)
  unfolding select
  select-map f p [] = refl
  select-map f p (x ∷ xs) = elim (Bool-cases (p (f x))) [
    | inl t ↦ rw t (ap (◌∷◌ (f x)) (select-map f p xs))
    | inr e ↦ rw e (select-map f p xs)
  ]
