-- ===== src/Tests.antt =====
-- Runs of the model at concrete inputs.
mod Data
mod Boot
mod Load
mod Serve
mod Run
mod Start
mod Lock
mod Server
mod Answers
