-- ===== src/Organization.antt =====
-- services/org_validation.py and core/id_generator.py: fifteen teams of ten with distinct employee
-- codes, and fresh incident numbers. `choice` is `secrets.choice`, by the draws made before it.
pub mod Validity
pub mod Numbers
use incident.Prelude.{
  ℕ, zero, suc, ◌+◌, ◌*◌, Bool, true, false, not, ◌&&◌, ◌||◌, Option, none, some, List, [], ◌∷◌,
  ◌++◌, ◌==◌, if◌then◌else◌, select, exists, length, Text, text_eq, truthy, codes, or_empty,
}
use incident.Models.{Team, Employee}
use incident.Session.{Tables, Result, ok, err, value_error, runtime_error}
use incident.GroupNotice.{active_team}
use incident.Ingest.{has_number}

unfoldable pub active_teams : Tables → List Team
active_teams t = select (λ m. m.is_active) t.teams

-- `[e.employee_code for e in team_emps if e.employee_code]`.
unfoldable pub codes_of : List Employee → List Text
codes_of [] = []
codes_of (e ∷ emps) =
    let rest = codes_of emps in
    if truthy (or_empty e.employee_code) then or_empty e.employee_code ∷ rest else rest

-- The elements of a set of texts.
unfoldable pub distinct : List Text → List Text
distinct [] = []
distinct (s ∷ rest) = if exists (text_eq s) rest then distinct rest else s ∷ distinct rest

abbrev pub expected_teams_count : ℕ
expected_teams_count = 15

abbrev pub expected_members_per_team : ℕ
expected_members_per_team = 10

abbrev pub expected_total_employees : ℕ
expected_total_employees = 150

pub record Report : Type 0 where
  pub teams_count : ℕ
  pub total_employees : ℕ

unfoldable pub team_codes : Tables → Team → List Text
team_codes t m = codes_of (active_team t m.id)

unfoldable pub then_codes : List Text → Result (List Text) → Result (List Text)
then_codes cs (err e) = err e
then_codes cs (ok rest) = ok (cs ++ rest)

-- The loop over the teams: the codes of all of them.
unfoldable pub all_active_codes : Tables → List Team → Result (List Text)
all_active_codes t [] = ok []
all_active_codes t (m ∷ teams) =
    let rest = all_active_codes t teams in
    if not (length (active_team t m.id) == expected_members_per_team)
    then err value_error
    else if not (length (team_codes t m) == expected_members_per_team)
        || not (length (distinct (team_codes t m)) == expected_members_per_team)
    then err value_error
    else then_codes (team_codes t m) rest

unfoldable pub check_codes : ℕ → Result (List Text) → Result Report
check_codes n (err e) = err e
check_codes n (ok cs) =
    if not (length cs == expected_total_employees)
    then err value_error
    else if not (length (distinct cs) == expected_total_employees)
    then err value_error
    else ok (record { teams_count = n; total_employees = length cs })

unfoldable pub validate_organization_structure : Tables → Result Report
validate_organization_structure t =
    if not (length (active_teams t) == expected_teams_count)
    then err value_error
    else check_codes (length (active_teams t)) (all_active_codes t (active_teams t))

abbrev pub base_chars : Text
base_chars = codes "23456789ABCDEFGHJKLMNPQRSTUVWXYZ"

module _ (choice : Text → ℕ → ℕ) where
  unfoldable pub random_part : ℕ → ℕ → Text
  random_part zero drawn = []
  random_part (suc n) drawn = choice base_chars drawn ∷ random_part n (drawn + 1)

  unfoldable pub generate_incident_number : ℕ → Text
  generate_incident_number drawn = codes "INC-" ++ random_part 8 drawn

  -- The attempts that are left, after as many draws.
  unfoldable pub attempts : Tables → ℕ → ℕ → Result Text
  attempts t zero drawn = err runtime_error
  attempts t (suc left) drawn =
      let rest = attempts t left (drawn + 8) in
      if exists (has_number (generate_incident_number drawn)) t.incidents
      then rest
      else ok (generate_incident_number drawn)

  unfoldable pub generate_unique_incident_number : Tables → ℕ → Result Text
  generate_unique_incident_number t drawn = attempts t 10 drawn
