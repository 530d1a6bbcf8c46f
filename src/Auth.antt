-- ===== src/Auth.antt =====
-- Sessions: src/auth/*.ts. The state, the program's own use of JSON web tokens, the epochs that end
-- sessions, and the rotation of refresh tokens.
pub mod State
pub mod Steps
pub mod Epoch
pub mod Mint
pub mod Membership
pub mod Recheck
pub mod Rotation
pub mod Logout
pub mod ServiceTokens
pub mod Provision
pub mod Spent
pub mod Purge
pub mod Traffic
pub mod Outcomes
