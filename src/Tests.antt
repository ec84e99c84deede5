-- ===== src/Tests.antt =====
-- Concrete runs of the theorems of the other modules.
pub mod Text
pub mod Table
pub mod Connection
pub mod Manager
pub mod Client
pub mod Fifo
