-- ===== src/Process.antt =====
-- src/tateyama/process/control.cpp: start, shutdown, kill and status of a server.
pub mod Os
pub mod Check
pub mod Kill
pub mod Stop
pub mod Launch
pub mod Start
pub mod Report
pub mod Confirmed
pub mod Gone
pub mod Patience
pub mod Reasons
pub mod Failures
mod Tests
