-- ===== src/Api.antt =====
-- internal/api/server.go: the HTTP interface over a backend.
pub mod Backend
pub mod Messages
pub mod Server
pub mod Access
pub mod Safety
