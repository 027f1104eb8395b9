-- ===== src/Tests.antt =====
-- The theorems of the library at concrete inputs, by the part of the program.
mod Capture
mod Files
mod Jobs
mod Child
mod Pipe
mod Pool
mod Runs
mod Requests
mod Setup
mod Answers
mod Start
mod Tools
