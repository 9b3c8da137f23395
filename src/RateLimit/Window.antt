-- ===== src/RateLimit/Window.antt =====
-- How many requests of one key get through.
use incident.Prelude.{
  ℕ, ◌≤◌, ◌<◌, Bool, true, false, List, [], ◌∷◌, ◌++◌, leb, ◌≡◌, ◌∙◌, refl, ap, sym, arith,
  Bool-split, select, length, length-append,
}
use incident.RateLimit.{is_recent, admit}

select-append : (p : ℕ → Bool) (xs ys : List ℕ) → select p (xs ++ ys) ≡ select p xs ++ select p ys
unfolding select
select-append p [] ys = refl
select-append p (x ∷ xs) ys =
    Bool-split (p x) (λ t. rw t (ap (λ l. x ∷ l) (select-append p xs ys)))
      (λ f. rw f (select-append p xs ys))

select-narrower :
    (p q : ℕ → Bool) (xs : List ℕ)
    → ((x : ℕ) → p x ≡ true → q x ≡ true)
    → select p (select q xs) ≡ select p xs
unfolding select
select-narrower p q [] h = refl
select-narrower p q (x ∷ xs) h =
    Bool-split (q x)
      (λ t. rw t (
        Bool-split (p x) (λ u. rw u (ap (λ l. x ∷ l) (select-narrower p q xs h)))
          (λ f. rw f (select-narrower p q xs h))))
      (λ n.
        let f : p x ≡ false = Bool-split (p x) (λ u. absurd (clash (sym (h x u) ∙ n))) (λ f. f) in
        rw n (rw f (select-narrower p q xs h)))
  where
    clash : true ≡ false → ⊥
    clash e = cc

length-select_le :
    (p q : ℕ → Bool) (xs : List ℕ)
    → ((x : ℕ) → p x ≡ true → q x ≡ true)
    → length (select p xs) ≤ length (select q xs)
unfolding select
length-select_le p q [] h = omega arith
length-select_le p q (x ∷ xs) h = ground (arith, length-select_le p q xs h, h x)

unfoldable pub logged : List ℕ → ℕ → Bool → List ℕ
logged through now true = through ++ now ∷ []
logged through now false = through

-- The requests of one key, one after another: the times kept, and the times at which one got through.
unfoldable pub serve : ℕ × ℕ → List ℕ → List ℕ × List ℕ → List ℕ × List ℕ
unfolding logged
serve limit [] s = s
serve limit (now ∷ times) (history, through) =
    let (ok, history') = admit limit now history in
    serve limit times (history', logged through now ok)

-- The clock does not go back.
abbrev pub InOrder : ℕ → List ℕ → Type 0
InOrder last [] = Unit
InOrder last (now ∷ times) = (last ≤ now) × InOrder now times

module _ (most window : ℕ) where
  recent : ℕ → ℕ → Bool
  recent now = is_recent window now

  -- From now on the times kept show what got through in a window, and that is not too much.
  record Sound (now : ℕ) (history through : List ℕ) : Type 0 where
    shown : (t : ℕ) → now ≤ t → select (recent t) history ≡ select (recent t) through
    few : (t : ℕ) → now ≤ t → length (select (recent t) through) ≤ most

  later-recent : (now t : ℕ) → now ≤ t → (x : ℕ) → recent t x ≡ true → recent now x ≡ true
  unfolding recent select
  later-recent now t h x k = ground arith

  one-le : (t now : ℕ) → length (select (recent t) (now ∷ [])) ≤ 1
  unfolding select
  one-le t now = Bool-split (recent t now) (λ h. rw h (omega arith)) (λ h. rw h (omega arith))

  passed-Sound :
      (last now : ℕ) (history through : List ℕ)
      → last ≤ now
      → length (select (recent now) history) < most
      → Sound last history through
      → Sound now (select (recent now) history ++ now ∷ []) (through ++ now ∷ [])
  passed-Sound last now history through later room s = record {
    shown = λ t h.
        select-append (recent t) (select (recent now) history) (now ∷ [])
        ∙ ap (λ l. l ++ select (recent t) (now ∷ []))
            (select-narrower (recent t) (recent now) history (later-recent now t h)
              ∙ s.shown t (omega (arith, later, h)))
        ∙ sym (select-append (recent t) through (now ∷ []));
    few = λ t h.
        let joined =
          ap length (select-append (recent t) through (now ∷ []))
          ∙ length-append (select (recent t) through) (select (recent t) (now ∷ [])) in
        let fewer = length-select_le (recent t) (recent now) through (later-recent now t h) in
        omega (arith, joined, fewer, one-le t now, ap length (s.shown now later), room);
  }

  still-Sound :
      (last now : ℕ) (history through : List ℕ)
      → last ≤ now
      → Sound last history through
      → Sound now history through
  still-Sound last now history through later s = record {
    shown = λ t h. s.shown t (omega (arith, later, h));
    few = λ t h. s.few t (omega (arith, later, h));
  }

  admit-Sound :
      (last now : ℕ) (history through : List ℕ)
      → last ≤ now
      → Sound last history through
      → Sound now
          (admit (most, window) now history).1
          (logged through now (admit (most, window) now history).0)
  unfolding admit logged recent
  admit-Sound last now history through later s =
      Bool-split (leb most (length (select (is_recent window now) history)))
        (λ t. rw t (still-Sound last now history through later s))
        (λ f. rw f (passed-Sound last now history through later (ground arith) s))

  -- The last time, or the one before all.
  abbrev pub last_of : ℕ → List ℕ → ℕ
  last_of last [] = last
  last_of last (now ∷ times) = last_of now times

  serve-Sound :
      (times : List ℕ) (last : ℕ) (history through : List ℕ)
      → InOrder last times
      → Sound last history through
      → let end = serve (most, window) times (history, through) in
        Sound (last_of last times) end.0 end.1
  unfolding serve
  serve-Sound [] last history through ordered s = s
  serve-Sound (now ∷ times) last history through (later, ordered) s =
      serve-Sound times now _ _ ordered (admit-Sound last now history through later s)

  -- However requests of one key come in, while the clock does not go back no window that ends at or
  -- after the last of them holds more than the permitted number that got through.
  pub serve-le :
      (times : List ℕ) (t : ℕ)
      → InOrder 0 times
      → last_of 0 times ≤ t
      → length (select (is_recent window t) (serve (most, window) times ([], [])).1) ≤ most
  unfolding recent select
  serve-le times t ordered h =
      (serve-Sound times 0 [] [] ordered
          (record { shown = λ t h. refl; few = λ t h. nothing t })).few
        t h
    where
      nothing : (t : ℕ) → length (select (recent t) []) ≤ most
      nothing t = omega arith
