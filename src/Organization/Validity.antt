-- ===== src/Organization/Validity.antt =====
-- services/org_validation.py: what passes.
use incident.Prelude.{
  ℕ, ◌*◌, ◌≤◌, Bool, true, false, not, ◌&&◌, ◌||◌, List, [], ◌∷◌, ◌++◌, ◌==◌, ◌≡◌, refl, ap, ◌∙◌,
  sym, if◌then◌else◌, exists, all, length, length-append, ==_iff, Text, text_eq, truthy, or_empty,
  Bool-split, arith,
}
use incident.Models.{Team, Employee}
use incident.Session.{Tables, Result, ok, err, value_error}
use incident.GroupNotice.{active_team}
use incident.Organization.{
  active_teams, codes_of, distinct, team_codes, then_codes, all_active_codes, check_codes,
  validate_organization_structure, Report,
}

unfoldable pub all_distinct : List Text → Bool
all_distinct [] = true
all_distinct (s ∷ rest) = not (exists (text_eq s) rest) && all_distinct rest

distinct-le : (xs : List Text) → length (distinct xs) ≤ length xs
unfolding distinct
distinct-le [] = omega arith
distinct-le (s ∷ rest) = ground (arith, distinct-le rest)

distinct_iff : (xs : List Text) → (length (distinct xs) == length xs) ≡ all_distinct xs
unfolding distinct all_distinct
distinct_iff [] = refl
distinct_iff (s ∷ rest) = ground (arith, distinct-le rest, distinct_iff rest)

exists-append_left :
    (p : Text → Bool) (xs ys : List Text) → exists p (xs ++ ys) ≡ false → exists p xs ≡ false
unfolding exists
exists-append_left p [] ys h = refl
exists-append_left p (x ∷ xs) ys h = ground (arith, exists-append_left p xs ys)

all_distinct-left : (xs ys : List Text) → all_distinct (xs ++ ys) ≡ true → all_distinct xs ≡ true
unfolding all_distinct
all_distinct-left [] ys h = refl
all_distinct-left (x ∷ xs) ys h =
    ground (arith, all_distinct-left xs ys, exists-append_left (text_eq x) xs ys)

all_distinct-right : (xs ys : List Text) → all_distinct (xs ++ ys) ≡ true → all_distinct ys ≡ true
unfolding all_distinct
all_distinct-right [] ys h = h
all_distinct-right (x ∷ xs) ys h = all_distinct-right xs ys (ground arith)

has_code : Employee → Bool
has_code e = truthy (or_empty e.employee_code)

-- Ten active members, all with a code.
unfoldable pub is_full : Tables → Team → Bool
unfolding has_code
is_full t m = (length (active_team t m.id) == 10) && all has_code (active_team t m.id)

unfoldable pub codes_in : Tables → List Team → List Text
codes_in t [] = []
codes_in t (m ∷ teams) = team_codes t m ++ codes_in t teams

-- What the docstring asks for: fifteen active teams, full ones, and no code twice.
unfoldable pub is_valid : Tables → Bool
is_valid t =
    (length (active_teams t) == 15)
    && (all (is_full t) (active_teams t) && all_distinct (codes_in t (active_teams t)))

codes_of-le : (emps : List Employee) → length (codes_of emps) ≤ length emps
unfolding codes_of
codes_of-le [] = omega arith
codes_of-le (e ∷ emps) = ground (arith, codes_of-le emps)

codes_of_iff : (emps : List Employee) → (length (codes_of emps) == length emps) ≡ all has_code emps
unfolding codes_of all has_code
codes_of_iff [] = refl
codes_of_iff (e ∷ emps) = ground (arith, codes_of-le emps, codes_of_iff emps)

-- A team that the loop passes.
passes : Tables → Team → Bool
passes t m =
    (length (active_team t m.id) == 10)
    && ((length (team_codes t m) == 10) && (length (distinct (team_codes t m)) == 10))

passes-is_full :
    (t : Tables) (m : Team) → passes t m ≡ (is_full t m && all_distinct (team_codes t m))
unfolding passes is_full team_codes
passes-is_full t m =
    ground (arith, codes_of_iff (active_team t m.id), distinct_iff (codes_of (active_team t m.id)))

loop_step :
    (x y z w : Bool) (cs all_codes : List Text) (r : Result (List Text))
    → r ≡ (if w then ok all_codes else err value_error)
    → (if not x
        then err value_error
        else if not y || not z
        then err value_error
        else then_codes cs r)
      ≡ (if (x && (y && z)) && w then ok (cs ++ all_codes) else err value_error)
unfolding then_codes
loop_step false y z w cs all_codes r h = refl
loop_step true false z w cs all_codes r h = refl
loop_step true true false w cs all_codes r h = refl
loop_step true true true true cs all_codes r h = rw h refl
loop_step true true true false cs all_codes r h = rw h refl

loop-passes :
    (t : Tables) (teams : List Team)
    → all_active_codes t teams
      ≡ (if all (passes t) teams then ok (codes_in t teams) else err value_error)
unfolding all_active_codes all codes_in passes then_codes
loop-passes t [] = refl
loop-passes t (m ∷ teams) =
    loop_step (length (active_team t m.id) == 10) (length (team_codes t m) == 10)
      (length (distinct (team_codes t m)) == 10) (all (passes t) teams) (team_codes t m)
      (codes_in t teams) (all_active_codes t teams) (loop-passes t teams)

passes-length :
    (t : Tables) (teams : List Team)
    → all (passes t) teams ≡ true
    → length (codes_in t teams) ≡ 10 * length teams
unfolding all passes codes_in
passes-length t [] h = refl
passes-length t (m ∷ teams) h =
    length-append (team_codes t m) (codes_in t teams) ∙ ground (arith, passes-length t teams)

all-is_full :
    (t : Tables) (teams : List Team)
    → all_distinct (codes_in t teams) ≡ true
    → all (is_full t) teams ≡ all (passes t) teams
unfolding all codes_in
all-is_full t [] h = refl
all-is_full t (m ∷ teams) h =
    rw
      (
        passes-is_full t m,
        all_distinct-left (team_codes t m) (codes_in t teams) h,
        all-is_full t teams (all_distinct-right (team_codes t m) (codes_in t teams) h),
      )
      ground arith

all-passes :
    (t : Tables) (teams : List Team) → all (passes t) teams ≡ true → all (is_full t) teams ≡ true
unfolding all
all-passes t [] h = refl
all-passes t (m ∷ teams) h = ground (arith, passes-is_full t m, all-passes t teams)

abbrev pub report : ℕ → Result Report
report n = ok (record { teams_count = 15; total_employees = n })

final_tests :
    (n m : ℕ) (d : Bool)
    → n ≡ 150
    → (m == 150) ≡ d
    → (if not (n == 150)
        then err value_error
        else if not (m == 150)
        then err value_error
        else report n)
      ≡ (if d then report 150 else err value_error)
final_tests n m d h e = rw (h, e) (Bool-split d (λ t. rw t refl) (λ f. rw f refl))

-- The three tests that are left, over the codes of all teams.
remaining_tests :
    (full ten : Bool) (cs : List Text)
    → (ten ≡ true → length cs ≡ 150)
    → (all_distinct cs ≡ true → full ≡ ten)
    → (ten ≡ true → full ≡ true)
    → check_codes 15 (if ten then ok cs else err value_error)
      ≡ (if full && all_distinct cs then report 150 else err value_error)
unfolding check_codes
remaining_tests true true cs h k l =
    final_tests (length cs) (length (distinct cs)) (all_distinct cs) (h refl)
      (ap (λ n. length (distinct cs) == n) (sym (h refl)) ∙ distinct_iff cs)
remaining_tests true false cs h k l =
    Bool-split (all_distinct cs) (λ e. absurd (ground (arith, k e))) (λ e. rw e refl)
remaining_tests false true cs h k l = absurd (ground (arith, l refl))
remaining_tests false false cs h k l = refl

-- The validation returns its report exactly if there are fifteen active teams, each with ten active
-- members who all have a code, and no code occurs twice among all of them; else it raises. So its
-- tests of the total and of each team's codes refuse nothing more.
pub validate_organization_structure-IsValid :
    (t : Tables)
    → validate_organization_structure t ≡ (if is_valid t then report 150 else err value_error)
unfolding validate_organization_structure is_valid
validate_organization_structure-IsValid t =
    Bool-split (length (active_teams t) == 15)
      (λ e.
        rw (e, (==_iff (length (active_teams t)) 15).0 e, loop-passes t (active_teams t))
          (remaining_tests (all (is_full t) (active_teams t)) (all (passes t) (active_teams t))
            (codes_in t (active_teams t))
            (λ h.
              passes-length t (active_teams t) h
              ∙ ap (λ n. 10 * n) ((==_iff (length (active_teams t)) 15).0 e))
            (all-is_full t (active_teams t)) (all-passes t (active_teams t))))
      (λ e. rw e refl)
