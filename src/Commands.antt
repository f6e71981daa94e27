-- ===== src/Commands.antt =====
-- server/commands/: the handlers of the requests.
pub mod Lookup
pub mod Login
pub mod Logout
pub mod UserQueries
pub mod Use
pub mod Subscription
pub mod PrivateMessages
pub mod Navigation
pub mod Named
pub mod Listing
pub mod Info
pub mod CreateRequest
pub mod CreateAnswers
pub mod Create
pub mod Answers
pub mod ListAnswers
