-- ===== src/Webdav.antt =====
-- plugins/webdav: the WebDAV server of a directory.
pub mod Condition
