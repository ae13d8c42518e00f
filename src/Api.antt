-- ===== src/Api.antt =====
-- The web service, api/app: what its routes answer and what they write.
pub mod Http
pub mod Backend
pub mod Storage
pub mod Site
pub mod Accounts
pub mod Tokens
pub mod Auth
pub mod Profiles
pub mod Schemas
pub mod Submissions
pub mod Problems
