-- ===== src/Buffer.antt =====
-- internal/buffer: the buffers that hold an upload, and the manager that hands them out.
pub mod Sliding
pub mod Memory
pub mod FileBuffer
pub mod Manager
