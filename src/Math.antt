-- ===== src/Math.antt =====
-- The folder math: the transforms and the estimate of a delay.
pub mod Heap
pub mod Transform
pub mod Fftw
pub mod Ifftw
pub mod Factory
pub mod GccPhat
mod Tests
