-- ===== src/Resolver.antt =====
-- doh.go: names are resolved over HTTPS, with a cache and a fallback.
pub mod Lookup
pub mod Cache
pub mod Again
