-- ===== src/Spaces/Service.antt =====
-- internal/spaces/service.go: the operations on members. The clock, the random source, the audit log
-- and the revocation of sessions are what a call finds of them. A member that the source returns
-- beside an error is not modelled.
mod Guards
mod Operations
unfoldable pub use Guards.*
unfoldable pub use Operations.*
