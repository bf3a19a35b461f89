-- ===== src/Vesa.antt =====
-- kernel/vesa.c and vesa.h: drawing on the frame buffer.
pub mod Pixels
pub mod Font
pub mod Draw
