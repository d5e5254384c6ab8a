-- ===== src/Sc.antt =====
-- src/sc.c: the conversation with the switch.
pub mod State
pub mod Operate
pub mod Buffers
pub mod Writing
pub mod Reading
pub mod Completing
pub mod Answering
pub mod Pieces
pub mod Conversation
pub mod Session
pub mod Start
pub mod Greeting
pub mod Still
pub mod Protocol
pub mod Moves
