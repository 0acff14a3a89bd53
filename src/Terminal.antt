-- ===== src/Terminal.antt =====
-- kernel/terminal: the output buffer of a terminal session.
pub mod RingBuffer
