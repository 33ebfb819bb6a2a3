-- ===== src/Tests.antt =====
-- Runs of the models at concrete inputs.
pub mod Services
pub mod Races
pub mod Sites
pub mod Endpoints
pub mod Demo
pub mod Streams
pub mod Fetches
pub mod Hubs
pub mod Sockets
pub mod Fronts
pub mod Dials
pub mod Flushes
pub mod Caches
pub mod Badges
pub mod Limits
pub mod Edges
pub mod Startup
pub mod Servers
