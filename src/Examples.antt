-- ===== src/Examples.antt =====
-- The theorems at concrete inputs of the program.
pub mod QueueRuns
pub mod LimitRuns
pub mod JobRuns
pub mod CastlingRuns
pub mod TurnRuns
pub mod ProgressRuns
pub mod OnceRuns
pub mod AgainRuns
pub mod FenRuns
pub mod EnPassantRuns
pub mod ConflictRuns
