-- ===== src/Llm.antt =====
-- The package nexus/llm.
pub mod Models
pub mod Json
pub mod Http
pub mod Providers
pub mod Router
pub mod Gateway
pub mod Factory
pub mod Service
