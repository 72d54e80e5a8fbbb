-- ===== src/Query.antt =====
-- server/query/protection.ts: what protects the query endpoint. Times are `Date.now()`.
pub mod Slots
pub mod ResultCache
pub mod Books
pub mod Budget
pub mod RateLimit
pub mod Window
pub mod Tests
