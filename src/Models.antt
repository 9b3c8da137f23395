-- ===== src/Models.antt =====
-- The database rows of backend/app/models. Identifiers (UUID columns) are numbers, ordered as their
-- strings are; instants, days and times of day are numbers of seconds and of days; a column of
-- words from a fixed vocabulary is an enumeration. Columns that no modelled operation reads or
-- depends on (passwords, addresses, free texts, the instants of a row's changes) are left out.
mod Org
mod Work
mod Records
unfoldable pub use Org.*
unfoldable pub use Work.*
unfoldable pub use Records.*
