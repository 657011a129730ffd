-- ===== src/Socat.antt =====
-- apps/plugins/socat/plugin: ports of the host forwarded to containers and machines.
pub mod Source
pub mod Forwards
pub mod Reserve
pub mod Resolve
