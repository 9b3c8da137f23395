-- ===== src/Rotation/Pointer.antt =====
-- The rotation pointer: positions 1 to 10, and a cycle that counts the rounds.
use incident.Prelude.{ℕ, zero, suc, ◌+◌, ◌-◌, ◌*◌, ◌/◌, ◌%◌, ◌≤◌, ◌≡◌, arith}
use incident.Models.{TeamRotation}
use incident.Rotation.{advance, in_range}

pub record IsPointer (p : ℕ × ℕ) : Type 0 where
  pub low : 1 ≤ p.0
  pub high : p.0 ≤ 10
  pub round : 1 ≤ p.1

-- Whatever the stored row holds, the pointer that is used is in range.
pub in_range-IsPointer : (r : TeamRotation) → IsPointer (in_range r)
unfolding in_range
in_range-IsPointer r = ground arith

pub advance-IsPointer : (p : ℕ × ℕ) → IsPointer p → IsPointer (advance p)
unfolding advance
advance-IsPointer p h = ground arith

unfoldable pub advance_times : ℕ → ℕ × ℕ → ℕ × ℕ
advance_times zero p = p
advance_times (suc n) p = advance (advance_times n p)

-- The number of turns before a pointer.
abbrev pub turn : ℕ × ℕ → ℕ
turn p = (p.0 - 1) + 10 * (p.1 - 1)

pub advance-turn : (p : ℕ × ℕ) → IsPointer p → turn (advance p) ≡ turn p + 1
unfolding advance
advance-turn p h = ground arith

advance_times-IsPointer : (n : ℕ) (p : ℕ × ℕ) → IsPointer p → IsPointer (advance_times n p)
unfolding advance_times
advance_times-IsPointer zero p h = h
advance_times-IsPointer (suc n) p h = advance-IsPointer _ (advance_times-IsPointer n p h)

turn-advance_times : (n : ℕ) (p : ℕ × ℕ) → IsPointer p → turn (advance_times n p) ≡ turn p + n
unfolding advance_times
turn-advance_times zero p h = omega arith
turn-advance_times (suc n) p h = omega (
  arith,
  advance-turn (advance_times n p) (advance_times-IsPointer n p h),
  turn-advance_times n p h,
)

-- After n advances from a pointer in range, the position and the cycle are the remainder and the
-- quotient by 10 of the turns taken so far.
pub advance_times_lem :
    (n : ℕ) (p : ℕ × ℕ)
    → IsPointer p
    → ((advance_times n p).0 ≡ (turn p + n) % 10 + 1)
      × ((advance_times n p).1 ≡ (turn p + n) / 10 + 1)
advance_times_lem n p h =
    let v = advance_times-IsPointer n p h in
    let e = turn-advance_times n p h in
    (omega (arith, v.low, v.high, v.round), omega (arith, v.low, v.high, v.round))
