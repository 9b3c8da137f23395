-- ===== src/Tests/Strategy.antt =====
-- Runs of the strategies, and their theorems at the sample tables.
use incident.Prelude.{ℕ, ◌≤◌, true, List, [], ◌∷◌, Memᴰ, ◌≡◌, refl, Text, text_le, min_from}
use incident.Models.{Employee}
use incident.Session.{Tables, ok}
use incident.Workload.{workload}
use incident.Eligibility.{has_skill, has_skills}
use incident.Strategy.{
  round_robin, least_workload, skill_based, other, get_required_skills, match_count, min_of,
  or_index_error, at_index, next_place, rotate, name_key, by_name, by_load, by_match,
  pick_least_workload, pick_round_robin, pick_skill_based, pick_skill_plus_workload, apply_strategy,
  get_last_assigned_employee,
}
use incident.Strategy.Choices.{Chooses, apply_strategy-Chooses}
use incident.Strategy.Optimal.{least_workload_least, skill_based_best, skill_plus_workload_best}
use incident.Tests.{runs, tables, outage, employee}

abbrev str_id : ℕ → Text
str_id i = i ∷ []

abbrev wanted : Tables
wanted = record tables { required_skills = record { incident_id = 50; skill_id = 9 } ∷ [] }

abbrev candidates : List Employee
candidates = employee 2 ∷ employee 3 ∷ employee 1 ∷ []

picks : Unit {0}
unfolding get_required_skills min_of or_index_error at_index next_place rotate match_count name_key
    by_name by_load by_match pick_least_workload pick_round_robin pick_skill_based
    pick_skill_plus_workload apply_strategy text_le min_from has_skill get_last_assigned_employee
picks = tt

skilled_choice : apply_strategy str_id other wanted candidates outage ≡ ok (employee 1)
unfolding runs picks
skilled_choice = refl

matched_choice : apply_strategy str_id skill_based wanted candidates outage ≡ ok (employee 1)
unfolding runs picks
matched_choice = refl

least_choice : apply_strategy str_id least_workload wanted candidates outage ≡ ok (employee 1)
unfolding runs picks
least_choice = refl

third : Memᴰ (employee 3) candidates
third = Memᴰ.tail (Memᴰ.head refl)

third_skilled : has_skills wanted (get_required_skills wanted 50) (employee 3) ≡ true
unfolding runs picks
third_skilled = refl

apply_strategy-Chooses_example :
    Chooses candidates (apply_strategy str_id round_robin wanted candidates outage)
apply_strategy-Chooses_example =
    apply_strategy-Chooses str_id round_robin wanted candidates outage refl

least_workload_example : workload wanted 1 ≤ workload wanted 3
least_workload_example =
    least_workload_least str_id wanted candidates outage (employee 1) (employee 3) least_choice
      third

skill_based_example :
    match_count wanted (get_required_skills wanted 50) (employee 3)
    ≤ match_count wanted (get_required_skills wanted 50) (employee 1)
skill_based_example =
    skill_based_best str_id wanted candidates outage (employee 1) (employee 3) matched_choice third

skill_plus_workload_example :
    (has_skills wanted (get_required_skills wanted 50) (employee 1) ≡ true)
    × (workload wanted 1 ≤ workload wanted 3)
skill_plus_workload_example =
    skill_plus_workload_best str_id wanted candidates outage (employee 1) (employee 3)
      skilled_choice third third_skilled
