-- ===== src/Files.antt =====
-- The file tools: read.go, write.go, edit.go and render.go of internal/tools, over the read tracker.
pub mod Replace
pub mod Numbered
pub mod Handlers
pub mod Render
