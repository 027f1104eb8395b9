-- ===== src/Tools.antt =====
-- cmd/test: the tools that find the calls of the system that a script needs.

pub mod Dig
