-- ===== src/Gui.antt =====
-- native/gui: the text surfaces of the user interface.
pub mod Color
pub mod Input
