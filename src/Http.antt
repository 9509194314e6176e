-- ===== src/Http.antt =====
-- services/beacon_management/internals: the requests that the HTTP gateway answers itself, and those
-- that it forwards.
pub mod Requests
pub mod Handlers
pub mod Serving
pub mod Examples
