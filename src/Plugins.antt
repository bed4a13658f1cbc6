-- ===== src/Plugins.antt =====
-- pwnproxy/plugins/core: the plugin loader.
pub mod Loader
