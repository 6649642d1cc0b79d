-- ===== src/Web.antt =====
-- The controllers of the HTTP API: src/aleph/web/controllers.
pub mod Pagination
pub mod Broadcast
pub mod Upload
