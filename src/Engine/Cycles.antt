-- ===== src/Engine/Cycles.antt =====
-- services/assignment_engine.py, `assign_group`: the identifiers of the cycles.
use incident.Prelude.{
  ℕ, zero, suc, ◌+◌, ◌-◌, ◌*◌, ◌/◌, ◌%◌, ◌<◌, false, [], ◌∷◌, ◌++◌, ltb, if◌then◌else◌, ◌≡◌, refl,
  ap, ◌∙◌, Bool-split, Text, codes, after, after-append, arith,
}
use incident.Models.{Incident}
use incident.Engine.Repetition.{digits, cycle_str, cycle_id_of}

-- `int` of a text of digits, after the digits of a number.
unfoldable pub read_from : ℕ → Text → ℕ
read_from n [] = n
read_from n (c ∷ s) = read_from (n * 10 + (c - 48)) s

read_from-append :
    (n : ℕ) (s : Text) (c : ℕ) → read_from n (s ++ c ∷ []) ≡ read_from n s * 10 + (c - 48)
unfolding read_from
read_from-append n [] c = refl
read_from-append n (d ∷ s) c = read_from-append (n * 10 + (d - 48)) s c

read_from-last : (n : ℕ) → read_from 0 ((48 + n) ∷ []) ≡ n
unfolding read_from
read_from-last n = omega arith

split_ten : (n : ℕ) → n / 10 * 10 + (48 + n % 10 - 48) ≡ n
split_ten n = omega arith

tenth_lt : (n fuel : ℕ) → n < suc fuel → ltb n 10 ≡ false → n / 10 < fuel
tenth_lt n fuel h e = ground arith

read_from-digits : (fuel n : ℕ) → n < fuel → read_from 0 (digits fuel n) ≡ n
unfolding digits
read_from-digits zero n h = absurd (omega arith)
read_from-digits (suc fuel) n h =
    Bool-split (ltb n 10) (λ e. rw e (read_from-last n))
      (λ e. rw e (
        read_from-append 0 (digits fuel (n / 10)) (48 + n % 10)
        ∙ ap (λ q. q * 10 + (48 + n % 10 - 48))
            (read_from-digits fuel (n / 10) (tenth_lt n fuel h e))
        ∙ split_ten n))

-- The number in the identifier of a cycle.
unfoldable pub read_cycle : Incident → Text → ℕ
read_cycle inc id = read_from 0 (after (codes ":CYCLE-") (after inc.incident_number id))

padded :
    (n : ℕ) (s : Text)
    → read_from 0 ((if ltb n 10 then codes "00" else if ltb n 100 then codes "0" else []) ++ s)
      ≡ read_from 0 s
unfolding read_from
padded n s =
    Bool-split (ltb n 10) (λ e. rw e refl)
      (λ e. Bool-split (ltb n 100) (λ d. rw (e, d) refl) (λ d. rw (e, d) refl))

read_cycle_str : (n : ℕ) → read_from 0 (after (codes ":CYCLE-") (codes ":" ++ cycle_str n)) ≡ n
unfolding after cycle_str
read_cycle_str n = padded n (digits (suc n) n) ∙ read_from-digits (suc n) n (omega arith)

-- The identifier that `assign_group` gives to a cycle of an incident says which cycle it is: the
-- number is read back from what follows the incident's number, whatever that looks like.
pub read_cycle-cycle_id_of : (inc : Incident) (n : ℕ) → read_cycle inc (cycle_id_of inc n) ≡ n
unfolding read_cycle cycle_id_of
read_cycle-cycle_id_of inc n =
    ap (λ s. read_from 0 (after (codes ":CYCLE-") s))
      (after-append inc.incident_number (codes ":" ++ cycle_str n))
    ∙ read_cycle_str n
