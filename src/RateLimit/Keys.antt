-- ===== src/RateLimit/Keys.antt =====
-- What a request does to the times kept: requests of different keys do not count against each other.
use incident.Prelude.{
  ℕ, ◌<◌, ◌≤◌, ◌-◌, Bool, true, false, Option, none, some, List, [], ◌∷◌, ◌++◌, ◌≡◌, ◌⊎◌, inl, inr,
  refl, Bool-split, if◌then◌else◌, Text, text_eq, leb, ltb, length, select, text_eq_refl, arith,
}
use incident.RateLimit.{
  History, HttpRequest, Response, passed, too_many, rate_limit, rstrip_slash, key_of, admit,
  assign_key, answer, limited, dispatch,
}

-- The times kept for a request's key that are less than a window old.
abbrev pub recent : ℕ → ℕ → HttpRequest → History → List ℕ
recent window now r history = select (λ ts. ltb (now - ts) window) (history (key_of r))

-- What can become of a request: it is none that is counted; there is room for it, and its time is
-- added to those of the window; or there is no room.
pub data Served (r : HttpRequest) (now : ℕ) (history : History) : Response × History → Type 0 where
  free :
      (rate_limit (rstrip_slash r.path) ≡ none) ⊎ (r.is_post ≡ false)
      → Served r now history (passed, history)
  counted :
      (most window : ℕ) (after : History)
      → rate_limit (rstrip_slash r.path) ≡ some (most, window)
      → r.is_post ≡ true
      → length (recent window now r history) < most
      → after (key_of r) ≡ recent window now r history ++ now ∷ []
      → ((k : Text) → text_eq (key_of r) k ≡ false → after k ≡ history k)
      → Served r now history (passed, after)
  rejected :
      (most window : ℕ)
      → rate_limit (rstrip_slash r.path) ≡ some (most, window)
      → r.is_post ≡ true
      → most ≤ length (recent window now r history)
      → Served r now history (too_many window, history)

answer-Served :
    (r : HttpRequest) (now : ℕ) (history : History) (most window : ℕ)
    → rate_limit (rstrip_slash r.path) ≡ some (most, window)
    → r.is_post ≡ true
    → Served r now history
        (answer (most, window) (key_of r) history (admit (most, window) now (history (key_of r))))
unfolding answer admit
answer-Served r now history most window h post =
    Bool-split (leb most (length (recent window now r history)))
      (λ t. rw t (rejected most window h post (ground arith)))
      (λ f. rw f (
        counted most window
          (assign_key (key_of r) (recent window now r history ++ now ∷ []) history) h post
          (ground arith) (unfold assign_key in rw (text_eq_refl (key_of r)) refl)
          (λ k e. unfold assign_key in rw e refl)))

posted-Served :
    (r : HttpRequest) (now : ℕ) (history : History) (most window : ℕ)
    → rate_limit (rstrip_slash r.path) ≡ some (most, window)
    → (b : Bool) → r.is_post ≡ b
    → Served r now history (
        if b
        then answer
            (most, window)
            (key_of r)
            history
            (admit (most, window) now (history (key_of r)))
        else (passed, history))
posted-Served r now history most window h true post = answer-Served r now history most window h post
posted-Served r now history most window h false post = free (inr post)

limited-Served :
    (r : HttpRequest) (now : ℕ) (history : History) (o : Option (ℕ × ℕ))
    → rate_limit (rstrip_slash r.path) ≡ o
    → Served r now history (limited o r now history)
unfolding limited
limited-Served r now history none h = free (inl h)
limited-Served r now history (some (most, window)) h =
    posted-Served r now history most window h r.is_post refl

-- A POST to a limited path goes on if fewer of the times kept for its client and path than the limit
-- are within the window; then its time is added to those, and the times of every other key stay as
-- they are. Else it is answered with 429, and no times change. Any other request goes on and is not
-- counted.
pub dispatch-Served :
    (r : HttpRequest) (now : ℕ) (history : History)
    → Served r now history (dispatch false r now history)
unfolding dispatch
dispatch-Served r now history = limited-Served r now history _ refl
