-- ===== src/Hp.antt =====
-- src/back/hp: the machines for HP switches.
pub mod State
pub mod Tokens
pub mod Tokenizer
pub mod Ends
pub mod Buffers
pub mod Init
pub mod Cmdout
pub mod Inchar
pub mod Contents
pub mod Machine
pub mod Transcript
