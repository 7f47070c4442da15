-- ===== src/Handler.antt =====
-- internal/handler: what the routes do, over any store that has the methods of the interface.
pub mod Users
pub mod Projects
pub mod Tokens
pub mod Origins
pub mod Client
pub mod Properties
pub mod Tracking
pub mod Login
pub mod Account
pub mod Health
pub mod Console
pub mod Analytics
pub mod Answered
