-- ===== src/Lib.antt =====
-- IncidentFlow, the assignment core (backend/app).
--
-- ServiceNow's incidents come in by the webhook, the assignment engine gives each to an employee,
-- and the shift hand-off moves it on when the employee goes off duty. The services share the
-- tables of backend/app/models through one database session.
--
-- Prelude: tests, lists, queries, texts and sorting that the components share.
-- Models: the rows of backend/app/models. Session: the session with its pending and committed rows
-- (db.add, db.execute, flush, commit, rollback) and the events sent over the websockets.
-- Shifts: services/shift_service.py. Workload: services/workload_service.py.
-- Eligibility: services/eligibility.py. Rotation: services/rotation_service.py.
-- Strategy: the strategies of services/assignment_engine.py. Engine: the rest of it, with Settings for
-- the getters, Group and Repetition for assign_group, Assign for _create_assignment, Outcomes and
-- Process for process_incident, Dispatch for send_incident_to_group. GroupNotice:
-- services/group_notice_service.py. Incidents: api/incidents.py. Mapper, Ingest and Webhook: the
-- mapper and the webhook of integrations/servicenow, services/incident_service.py. Organization:
-- services/org_validation.py and core/id_generator.py. Teams: services/team_service.py. Actions: what
-- a service does with its session as a monad, in which what was written before an exception stays
-- written. ServiceNow: the client of integrations/servicenow/client.py. Sync:
-- services/sync_service.py. Notices: create_notification of services/notification_service.py. Handoff:
-- services/handoff_service.py. WebSocket: websocket/manager.py. RateLimit: core/middleware.py.
-- Tests: sample tables, runs, and the theorems at concrete inputs.
--
-- Identifiers (UUIDs) are numbers in the order of their strings; instants and times of day count
-- seconds, dates count days. A fresh identifier and the clock's reading are arguments. A SELECT with
-- no ORDER BY answers in the order of the table; the database's order of employee codes is a
-- parameter. Texts are lists of code points, with strip and lower on the ASCII range. Log lines,
-- message texts and the JSON details of audit rows are not modelled, nor is the frontend. A number is
-- written with as many rounds as it has digits at most; ten attempts at a fresh incident number are
-- the program's own bound. Not modelled: _create_queued_assignment, which process_incident cannot
-- reach; chat, search, e-mail and the administration, which do not take part in assignments.
pub mod Prelude
pub mod Models
pub mod Session
pub mod Shifts
pub mod Workload
pub mod Eligibility
pub mod Rotation
pub mod Strategy
pub mod ServiceNow
pub mod Actions
pub mod Sync
pub mod Notices
pub mod GroupNotice
pub mod Engine
pub mod Incidents
pub mod Mapper
pub mod Ingest
pub mod Webhook
pub mod Organization
pub mod Teams
pub mod Handoff
pub mod WebSocket
pub mod RateLimit
mod Tests
