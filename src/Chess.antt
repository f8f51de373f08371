-- ===== src/Chess.antt =====
-- The chess rules of tools/*_runtime.py.
pub mod Castling
pub mod Turn
pub mod Linkage
