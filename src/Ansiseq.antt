-- ===== src/Ansiseq.antt =====
-- src/back/ansiseq.c: the state machine that eats one ANSI escape sequence.
pub mod Data
pub mod Table
pub mod Actions
pub mod Eat
pub mod Steps
pub mod Stream
pub mod Terminator
pub mod Ends
pub mod Params
pub mod Csi
pub mod Strings
pub mod Osc
pub mod Escape
