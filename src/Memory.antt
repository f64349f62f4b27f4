-- ===== src/Memory.antt =====
-- internal/adapter/memstore/memstore.go: the ports in memory. A mutex makes each method one step;
-- the order in which Go ranges over a map is that of the list.
pub mod Repository
pub mod Cache
pub mod Content
pub mod Views
pub mod Limiter
