-- ===== src/Base.antt =====
-- The folder base.
pub mod EventLoop
pub mod Nlog
pub mod CriticalSection
