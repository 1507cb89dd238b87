-- ===== src/App.antt =====
-- go/internal/app/server.go: the proxy's HTTP handlers, in parts.
pub mod Access
pub mod Authorize
pub mod Build
pub mod Forward
pub mod Lock
pub mod Mode
pub mod Request
pub mod Serve
pub mod Settings
