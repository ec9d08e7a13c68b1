-- ===== src/Layout.antt =====
-- src/layout.rs: rectangles, floating layer, tiled tree and directional focus.
pub mod Rect
pub mod Floating
pub mod Layer
pub mod Tiled
pub mod Focus
