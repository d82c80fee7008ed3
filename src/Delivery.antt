-- ===== src/Delivery.antt =====
-- mcp/result.py: what a result carries besides text.
pub mod Environment
pub mod Gif
pub mod Images
pub mod Surfaces
