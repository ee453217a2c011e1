-- ===== src/Commands.antt =====
-- What the programs of cmd/ put together.
pub mod Mq
mod Tests
