-- ===== src/ServiceNow/Retries.antt =====
-- How often a request is tried, and what its outcome says.
use incident.Prelude.{
  ℕ, zero, suc, ◌+◌, ◌≤◌, Bool, true, false, List, ◌∷◌, ltb, leb, ◌≡◌, refl, arith, length,
  Bool-split,
}
use incident.ServiceNow.{
  Patch, Reply, status, connection_error, other_error, Outcome, response, raised, attempt, execute,
  execute_with_retry,
}

-- A reply that is tried again: a status of 500 or more, or an error of the connection.
pub is_transient : Reply → Bool
is_transient (status code) = leb 500 code
is_transient connection_error = true
is_transient other_error = false

-- What the caller gets of the last reply.
outcome_of : Reply → Outcome
outcome_of (status code) = response code
outcome_of _ = raised

-- `Sends before after`: from `before` on, each request was sent again since its reply was transient.
pub data Sends (server : List Patch → Reply) (patch : Patch)
    : List Patch → List Patch → Type 0 where
  stop : {sent : List Patch} → Sends server patch sent sent
  again :
      {sent after : List Patch}
      → is_transient (server (patch ∷ sent)) ≡ true
      → Sends server patch (patch ∷ sent) after
      → Sends server patch sent after

-- With `left` tries beyond the first, all but the last request met transient replies, the outcome is
-- that of the last reply, and a last reply that is transient means that all tries were used.
pub Settled : (List Patch → Reply) → Patch → ℕ → List Patch → Outcome × List Patch → Type 0
Settled server patch left sent result =
    (before : List Patch) × (result ≡ (outcome_of (server (patch ∷ before)), patch ∷ before))
    × Sends server patch sent before
    × (length before ≤ length sent + left)
    × (is_transient (server (patch ∷ before)) ≡ true → length before ≡ length sent + left)

last_try :
    (server : List Patch → Reply) (patch : Patch) (left : ℕ) (sent : List Patch)
    → (is_transient (server (patch ∷ sent)) ≡ true → left ≡ 0)
    → Settled server patch left sent (outcome_of (server (patch ∷ sent)), patch ∷ sent)
unfolding Settled
last_try server patch left sent h = (sent, refl, stop, omega arith, λ t. omega (arith, h t))

one_more :
    (server : List Patch → Reply) (patch : Patch) (left : ℕ) (sent : List Patch)
    (result : Outcome × List Patch)
    → is_transient (server (patch ∷ sent)) ≡ true
    → Settled server patch left (patch ∷ sent) result
    → Settled server patch (suc left) sent result
unfolding Settled
one_more server patch left sent result t (before, same, chain, most, all_used) =
    (before, same, again t chain, omega (arith, most), λ k. omega (arith, all_used k))

attempt-last :
    (reply : Reply) (sent : List Patch) (rest : Outcome × List Patch)
    → attempt reply 0 sent rest ≡ (outcome_of reply, sent)
unfolding attempt outcome_of
attempt-last (status code) sent rest = Bool-split (leb 500 code) (λ h. rw h refl) (λ h. rw h refl)
attempt-last connection_error sent rest = refl
attempt-last other_error sent rest = refl

more : (n : ℕ) → ltb 0 (suc n) ≡ true
more n = ground arith

attempt-again :
    (reply : Reply) (n : ℕ) (sent : List Patch) (rest : Outcome × List Patch)
    → is_transient reply ≡ true
    → attempt reply (suc n) sent rest ≡ rest
unfolding attempt is_transient
attempt-again (status code) n sent rest h = rw h (rw (more n) refl)
attempt-again connection_error n sent rest h = rw (more n) refl
attempt-again other_error n sent rest h = cc

attempt-final :
    (reply : Reply) (n : ℕ) (sent : List Patch) (rest : Outcome × List Patch)
    → is_transient reply ≡ false
    → attempt reply n sent rest ≡ (outcome_of reply, sent)
unfolding attempt is_transient outcome_of
attempt-final (status code) n sent rest h = rw h refl
attempt-final connection_error n sent rest h = cc
attempt-final other_error n sent rest h = refl

execute-Settled :
    (server : List Patch → Reply) (patch : Patch) (left : ℕ) (sent : List Patch)
    → Settled server patch left sent (execute server patch (suc left) sent)
unfolding execute
execute-Settled server patch zero sent =
    rw (attempt-last (server (patch ∷ sent)) (patch ∷ sent) (raised, patch ∷ sent))
      (last_try server patch 0 sent (λ _. refl))
execute-Settled server patch (suc n) sent =
    let reply = server (patch ∷ sent) in
    let rest = execute server patch (suc n) (patch ∷ sent) in
    Bool-split (is_transient reply)
      (λ t.
        rw (attempt-again reply n (patch ∷ sent) rest t)
          (one_more server patch n sent rest t (execute-Settled server patch n (patch ∷ sent))))
      (λ f.
        rw (attempt-final reply (suc n) (patch ∷ sent) rest f)
          (last_try server patch (suc n) sent (λ t. cc)))

-- An update makes at most three requests; all but the last met transient replies, the outcome is
-- that of the last reply, and only the third may be transient itself.
pub execute_with_retry-Settled :
    (server : List Patch → Reply) (patch : Patch) (sent : List Patch)
    → Settled server patch 2 sent (execute_with_retry server patch sent)
unfolding execute_with_retry
execute_with_retry-Settled server patch sent = execute-Settled server patch 2 sent
