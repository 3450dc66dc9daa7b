-- ===== src/Teams.antt =====
-- internal/teams: the board that a team's members share.
pub mod Cards
pub mod Board
pub mod Envelope
mod Examples
