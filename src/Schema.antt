-- ===== src/Schema.antt =====
-- The control database of app/main.py: the states, the rows and the tables. A row keeps the
-- columns that the modelled operations read or write; texts that are only shown (names, messages)
-- are left out. Identifiers, worker names and instants (seconds) are natural numbers.
mod States
mod Rows
mod Tables
pub use States.*
pub use Rows.*
pub use Tables.*
