-- ===== src/Config.antt =====
-- src/tateyama/configuration: the instance id.
pub mod InstanceId
