-- ===== src/Python.antt =====
-- src/python: the bindings for Python, of which the iterator over a range of instances has logic of
-- its own.
pub mod Iterator
pub mod Scan
pub mod Visits
pub mod Loop
