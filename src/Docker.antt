-- ===== src/Docker.antt =====
-- plugins/docker-app: the plugin that runs applications as containers.
pub mod Store
