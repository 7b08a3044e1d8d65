-- ===== src/Goldens.antt =====
-- goldens/golden_diff.py: PNG images read and written by the standard library alone, and the
-- comparison of a screenshot with its golden image.
pub mod Filter
pub mod Png
pub mod Compare
pub mod Pane
mod Tests
