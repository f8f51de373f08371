-- ===== src/Python.antt =====
-- What the validators of server/ use of Python and of its standard library.
pub mod Values
pub mod Grammar
pub mod Dumps
