-- ===== src/Tgctl.antt =====
-- src/tateyama/tgctl/tgctl.cpp: the subcommands of `tgctl`.
pub mod Shell
pub mod Dispatch
pub mod Main
pub mod Maintenance
mod Tests
