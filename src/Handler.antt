-- ===== src/Handler.antt =====
-- src/handler/: the request policy and the redirect policy of the handler.
pub mod Policy
pub mod Redirect
pub mod ContentType
pub mod Plain
pub mod Accept
pub mod Render
pub mod Core
pub mod Trace
pub mod Routes
pub mod Wasip2
pub mod Wasip3
