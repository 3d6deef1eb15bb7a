-- ===== src/Memory.antt =====
-- The folder memery: the byte copies that its classes make, and the classes.
pub mod Copy
pub mod Queue
pub mod Fifo
pub mod Checked
pub mod Buffer
