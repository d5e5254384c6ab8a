-- ===== src/Hp/Transcript.antt =====
-- What the machines of src/back/hp make of a switch's transcripts: escape sequences between pieces
-- of text.
pub mod Cmdout
pub mod Question
pub mod Inchar
pub mod Greeting
pub mod Init
