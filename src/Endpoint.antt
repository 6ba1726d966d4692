-- ===== src/Endpoint.antt =====
-- pkg/endpoint: the endpoints that connect the service to a bus or a file.
pub mod SocketCan
