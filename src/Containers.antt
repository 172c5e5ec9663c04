-- ===== src/Containers.antt =====
-- internal/service/container_service.go: the decisions of the service that runs the instances.
pub mod Scan
pub mod Names
pub mod Swing
pub mod Ports
pub mod Routing
pub mod Config
pub mod MiddleProxy
