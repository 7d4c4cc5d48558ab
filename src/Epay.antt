-- ===== src/Epay.antt =====
-- internal/infrastructure/epay and internal/ports/api/epay: the outer side of Halyk Epay.
pub mod Invoice
pub mod Reasons
pub mod Tokens
pub mod Bodies
pub mod Handlers
pub mod Authorization
pub mod Operations
pub mod Server
pub mod Effects
pub mod Endpoint
pub mod TokenEndpoint
pub mod Rules
pub mod Newest
mod Tests
