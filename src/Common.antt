-- ===== src/Common.antt =====
-- apps/common: the error codes, the envelope and the ids of requests.
pub mod Answering
pub mod Errors
pub mod Requests
pub mod Handler
pub mod Middleware
pub mod Tracing
