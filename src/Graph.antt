-- ===== src/Graph.antt =====
-- graph: positions and moves of the opening graph.
pub mod Fen
pub mod EnPassant
pub mod Conflict
