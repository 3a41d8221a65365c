-- ===== src/Auth/Users/Rules.antt =====
-- What a call of the service of users leaves in the table: a rule for each way to put calls together.
-- A statement keeps a property where the others keep it and the statement does.
mod Core
mod Calls
pub use Core.*
pub use Calls.*
