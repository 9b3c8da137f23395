-- ===== src/Workload.antt =====
-- services/workload_service.py: how many open assignments an employee holds.
use incident.Prelude.{ℕ, Bool, ◌&&◌, ◌==◌, count}
use incident.Models.{IncidentAssignment, is_open}
use incident.Session.{Tables}

-- The WHERE clause, for one employee of the list.
abbrev pub is_load : ℕ → IncidentAssignment → Bool
is_load employee_id a = (a.employee_id == employee_id) && (a.is_active && is_open a.status)

-- `get_workloads([...])[employee_id]`: the count of the employee's group, and 0 if there is none.
unfoldable pub workload : Tables → ℕ → ℕ
workload t employee_id = count (is_load employee_id) t.assignments
