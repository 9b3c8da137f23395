-- ===== src/ServiceNow.antt =====
-- integrations/servicenow/client.py: how an update leaves the program. The server is a function of the
-- requests it has seen, the last one first; `raises` says for which statuses `raise_for_status` or
-- the reading of the body raises.
pub mod Retries
use incident.Prelude.{
  ℕ, zero, suc, Bool, true, false, ◌&&◌, ◌||◌, Option, none, some, List, [], ◌∷◌, ltb, leb,
  if◌then◌else◌, Text,
}
use incident.Models.{Field}

-- AUTOMATION_MODE, and `other` for any other word.
pub data Mode : Type 0 where
  shadow dry_run paused live other : Mode

pub record Settings : Type 0 where
  pub automation_mode : Mode
  pub shadow_mode : Bool
  pub dry_run_mode : Bool
  -- The `mode` of the system_settings row `automation_mode`, if it can be read.
  pub stored_mode : Option Mode

pub record Patch : Type 0 where
  pub sys_id : Option Text
  pub field : Field

-- What comes of one request: a response, one of the errors that are tried again, or another.
pub data Reply : Type 0 where
  status : ℕ → Reply
  connection_error other_error : Reply

pub data Outcome : Type 0 where
  response : ℕ → Outcome
  raised : Outcome

pub data Answer : Type 0 where
  skipped updated failed : Answer

unfoldable pub attempt : Reply → ℕ → List Patch → Outcome × List Patch → Outcome × List Patch
attempt (status code) left sent rest =
    if leb 500 code && ltb 0 left then rest else (response code, sent)
attempt connection_error left sent rest = if ltb 0 left then rest else (raised, sent)
attempt other_error left sent rest = (raised, sent)

unfoldable pub execute : (List Patch → Reply) → Patch → ℕ → List Patch → Outcome × List Patch
execute server patch zero sent = (raised, sent)
execute server patch (suc left) sent =
    let rest = execute server patch left (patch ∷ sent) in
    attempt (server (patch ∷ sent)) left (patch ∷ sent) rest

abbrev pub max_retries : ℕ
max_retries = 3

unfoldable pub execute_with_retry : (List Patch → Reply) → Patch → List Patch → Outcome × List Patch
execute_with_retry server patch sent = execute server patch max_retries sent

unfoldable pub is_guarded : Mode → Bool
is_guarded live = false
is_guarded other = false
is_guarded _ = true

-- The condition under which an update is skipped, by the `mode` argument.
unfoldable pub is_prohibited : Settings → Option Mode → Bool
is_prohibited config (some mode) = is_guarded mode
is_prohibited config none =
    is_guarded config.automation_mode || (config.shadow_mode || config.dry_run_mode)

unfoldable pub answer_of : (ℕ → Bool) → Outcome → Answer
answer_of raises (response code) = if raises code then failed else updated
answer_of raises raised = failed

unfoldable pub update_incident :
    Settings
    → (List Patch → Reply)
    → (ℕ → Bool)
    → Option Mode
    → Patch
    → List Patch
    → Answer × List Patch
update_incident config server raises mode patch sent =
    if is_prohibited config mode
    then (skipped, sent)
    else (let (out, sent') = execute_with_retry server patch sent in (answer_of raises out, sent'))
