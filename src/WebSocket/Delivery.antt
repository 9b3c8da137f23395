-- ===== src/WebSocket/Delivery.antt =====
-- Where events arrive, and which sockets are left.
use incident.Prelude.{
  ℕ, Bool, true, false, not, Option, none, some, get_or, List, [], ◌∷◌, ◌++◌, map, ◌==◌, ==_iff,
  ==-refl, ◌≡◌, ◌∙◌, refl, ap, sym, Bool-split, select, lookup, lookup-put, lookup-put_other,
  lookup-delete, lookup-delete_other,
}
use incident.Session.{EventType}
use incident.WebSocket.{
  Manager, sockets, remove, left_with, without, disconnect, disconnect_all, publish, send_to_user,
}

sockets-left_with : (user : ℕ) (l : List ℕ) (m : Manager) → sockets user (left_with user l m) ≡ l
unfolding sockets left_with
sockets-left_with user [] m = rw (lookup-delete user m.active_connections) refl
sockets-left_with user (x ∷ xs) m = rw (lookup-put user (x ∷ xs) m.active_connections) refl

sockets-left_other :
    (user other : ℕ) (l : List ℕ) (m : Manager)
    → (user == other) ≡ false
    → sockets other (left_with user l m) ≡ sockets other m
unfolding sockets left_with
sockets-left_other user other [] m h =
    rw (lookup-delete_other other user m.active_connections h) refl
sockets-left_other user other (x ∷ xs) m h =
    rw (lookup-put_other other user (x ∷ xs) m.active_connections h) refl

without-sockets :
    (s user : ℕ) (o : Option (List ℕ)) (m : Manager)
    → sockets user m ≡ get_or o []
    → sockets user (without s user o m) ≡ remove s (get_or o [])
unfolding without remove
without-sockets s user none m h = h
without-sockets s user (some l) m h = sockets-left_with user (remove s l) m

without-other :
    (s user other : ℕ) (o : Option (List ℕ)) (m : Manager)
    → (user == other) ≡ false
    → sockets other (without s user o m) ≡ sockets other m
unfolding without
without-other s user other none m h = refl
without-other s user other (some l) m h = sockets-left_other user other (remove s l) m h

remove_all : List ℕ → List ℕ → List ℕ
remove_all [] l = l
remove_all (s ∷ stale) l = remove_all stale (remove s l)

disconnect_all-sockets :
    (stale : List ℕ) (user : ℕ) (m : Manager)
    → sockets user (disconnect_all stale user m) ≡ remove_all stale (sockets user m)
unfolding disconnect_all remove_all disconnect sockets
disconnect_all-sockets [] user m = refl
disconnect_all-sockets (s ∷ stale) user m =
    disconnect_all-sockets stale user (disconnect s user m)
    ∙ ap (remove_all stale) (without-sockets s user (lookup user m.active_connections) m refl)

disconnect_all-other :
    (stale : List ℕ) (user other : ℕ) (m : Manager)
    → (user == other) ≡ false
    → sockets other (disconnect_all stale user m) ≡ sockets other m
unfolding disconnect_all disconnect
disconnect_all-other [] user other m h = refl
disconnect_all-other (s ∷ stale) user other m h =
    disconnect_all-other stale user other (disconnect s user m) h
    ∙ without-other s user other (lookup user m.active_connections) m h

left_with-delivered :
    (user : ℕ) (l : List ℕ) (m : Manager) → (left_with user l m).delivered ≡ m.delivered
unfolding left_with
left_with-delivered user [] m = refl
left_with-delivered user (x ∷ xs) m = refl

without-delivered :
    (s user : ℕ) (o : Option (List ℕ)) (m : Manager) → (without s user o m).delivered ≡ m.delivered
unfolding without
without-delivered s user none m = refl
without-delivered s user (some l) m = left_with-delivered user (remove s l) m

disconnect_all-delivered :
    (stale : List ℕ) (user : ℕ) (m : Manager)
    → (disconnect_all stale user m).delivered ≡ m.delivered
unfolding disconnect_all disconnect
disconnect_all-delivered [] user m = refl
disconnect_all-delivered (s ∷ stale) user m =
    disconnect_all-delivered stale user (disconnect s user m)
    ∙ without-delivered s user (lookup user m.active_connections) m

clash : true ≡ false → ⊥
clash h = cc

module _ (alive : ℕ → Bool) where
  -- Removing sockets that are dead does not touch one that is alive.
  remove_all-keep :
      (x : ℕ) (xs l : List ℕ)
      → alive x ≡ true
      → remove_all (select (λ s. not (alive s)) xs) (x ∷ l)
        ≡ x ∷ remove_all (select (λ s. not (alive s)) xs) l
  unfolding remove_all select remove
  remove_all-keep x [] l h = refl
  remove_all-keep x (y ∷ xs) l h =
      Bool-split (alive y) (λ t. rw t (remove_all-keep x xs l h))
        (λ f.
          let apart : (x == y) ≡ false =
            Bool-split (x == y) (λ e. absurd (clash (sym h ∙ ap alive ((==_iff x y).0 e) ∙ f)))
              (λ n. n) in
          rw f (rw apart (remove_all-keep x xs (remove y l) h)))

  remove_all-dead : (l : List ℕ) → remove_all (select (λ s. not (alive s)) l) l ≡ select alive l
  unfolding remove_all select remove
  remove_all-dead [] = refl
  remove_all-dead (x ∷ xs) =
      Bool-split (alive x)
        (λ t. rw t (remove_all-keep x xs xs t ∙ ap (λ l. x ∷ l) (remove_all-dead xs)))
        (λ f. rw f (rw (==-refl x) (remove_all-dead xs)))

  -- An event for a user arrives at exactly the user's live sockets; the dead ones are dropped, and
  -- nobody else's sockets change.
  pub send_to_user_lem :
      (user : ℕ) (event : EventType) (m : Manager)
      → ((send_to_user alive user event m).delivered
          ≡ m.delivered ++ map (λ s. (s, event)) (select alive (sockets user m)))
        × (sockets user (send_to_user alive user event m) ≡ select alive (sockets user m))
        × ((other : ℕ)
            → (user == other) ≡ false
            → sockets other (send_to_user alive user event m) ≡ sockets other m)
  unfolding send_to_user publish sockets
  send_to_user_lem user event m =
      let targets = sockets user m in
      let stale = select (λ s. not (alive s)) targets in
      (
        disconnect_all-delivered stale user _,
        disconnect_all-sockets stale user _ ∙ remove_all-dead targets,
        λ other h. disconnect_all-other stale user other _ h,
      )
