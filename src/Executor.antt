-- ===== src/Executor.antt =====
-- src/executor: one attempt of a job over HTTP or in a child process, and the retry loop.
pub mod Http
pub mod Shell
pub mod Dispatch
