-- ===== src/CloudGateway.antt =====
-- services/cloud_gateway/: the WebSocket connection to a cloud gateway.
pub mod Url
pub mod Connection
pub mod Examples
