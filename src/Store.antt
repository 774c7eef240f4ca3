-- ===== src/Store.antt =====
-- internal/store.
pub mod Games
pub mod Ratings
pub mod JoinCodes
pub mod Classrooms
pub mod Questions
pub mod Sessions
pub mod Puzzles
pub mod Progress
pub mod RateLimit
pub mod Select
pub mod Homework
pub mod Users
