-- ===== src/Tests.antt =====
-- Concrete runs of the modelled code, and the theorems applied to them.
mod Fixtures
mod Llm
mod Providers
mod Cache
mod Api
mod Codecs
mod Servers
mod Store
mod Routes
mod Starting
mod Serving
mod Sharing
mod Crowd
