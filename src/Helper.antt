-- ===== src/Helper.antt =====
-- internal/helper: the privileged process that installs a candidate configuration for Xray.
pub mod Disk
pub mod Engine
pub mod Client
pub mod Server
pub mod Process
