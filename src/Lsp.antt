-- ===== src/Lsp.antt =====
-- The language server client (internal/lsp): frames on the wire, the client of one server and the
-- registry of clients.
pub mod Wire
pub mod Client
pub mod Registry
