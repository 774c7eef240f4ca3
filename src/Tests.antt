-- ===== src/Tests.antt =====
-- Concrete games, archives and sites, and the theorems applied to them.
pub mod Fixtures
pub mod Games
pub mod Archives
pub mod Sites
pub mod Rooms
pub mod Paces
pub mod Puzzles
pub mod Desks
pub mod Logins
pub mod Members
pub mod Reviews
pub mod Callers
pub mod Draws
pub mod Samples
pub mod Homework
pub mod Engines
