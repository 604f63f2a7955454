-- ===== src/Tests.antt =====
-- Concrete inputs at which the theorems apply, and small runs of the code.
pub mod Parsing
pub mod Thread
pub mod Database
pub mod Lists
pub mod Requests
pub mod Check
pub mod Answers
pub mod Accounts
pub mod Updates
pub mod Server
pub mod Sockets
