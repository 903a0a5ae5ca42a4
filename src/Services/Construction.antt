-- ===== src/Services/Construction.antt =====
-- services/construction_service.go: the endpoints of the Construction API.
pub mod Toolkit
pub mod Intent
pub mod Fee
pub mod Payloads
pub mod Parse
pub mod Combine
pub mod Modes
