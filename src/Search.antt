-- ===== src/Search.antt =====
-- The code search of internal/search.
pub mod Tokens
pub mod Index
