-- ===== src/Lib.antt =====
-- swh talks to the command line of a network switch through ssh. What the user types goes to the
-- switch character by character; what the switch answers is full of escape sequences, which are
-- eaten, so that the user sees the output of a command and a prompt.
--
-- The parts of the program, and the files that model them:
--
--   src/back/ansiseq.c    Ansiseq    one escape sequence is eaten: a table of transitions over classes
--                                    of bytes, with actions that collect its class, its command and
--                                    its parameters. `ansiseq_eatone` over `Statics`, the file's
--                                    variables; Table has the table, Actions the actions, Eat the
--                                    loop, and Steps, Stream, Params, Csi, Strings, Osc,
--                                    Escape, Terminator and Ends the lemmas.
--   src/back/fsm.c        Fsm        a machine over a stream: a table, a tokenizer and actions. The
--                                    record `Fsm` is the structure; `fsm_feed` and the others are
--                                    functions on it and on the variables `W` of the machine's file.
--                                    Tokenizer has what it needs of a tokenizer, as an interface; Fuel
--                                    and Pieces have what follows from that, and Ends the end of the
--                                    loop, of which Hp/Ends has an instance.
--   src/back/hp/*.c       Hp         the tokenizer and three machines for HP switches: Init for the
--                                    greeting, Cmdout for the output of a command, Inchar for the
--                                    echo of a character. State has their variables, Buffers the
--                                    steps that they share, Contents what the buffers hold, Tokenizer
--                                    the laws of the interface, Machine and Transcript the texts that
--                                    the machines eat.
--   src/back/fsm_*.c      Back       the interfaces that sc uses, and the lookup of a backend by name.
--   src/sc.c              Sc         the conversation with the switch. State has the variables,
--                                    Operate the operations with the functions' names, Buffers,
--                                    Writing, Reading, Pieces, Answering and Completing the lemmas on
--                                    them, Start and Greeting the way to the first prompt,
--                                    Conversation and Session a whole command, Protocol and Moves what
--                                    every state and every step is like, with Still for both.
--   src/core.c            Core       the inner loop of `core_run`; Core/Run has `core_init` and the
--                                    outer loop, Core/Turn and Core/Session its turns.
--   src/front/ia/uc_ia.c  UcIa       the front end's buffer, which hands out lines, and its output.
--   src/front/uc.c        Uc         the interface that a front end attaches to, with the front end
--                                    that does nothing (src/front/noop/uc_noop.c).
--   src/spawn.c           Spawn      the process that runs ssh, and the descriptors it is left with.
--   src/init.c            Init       the options, with the lists of src/nami.c; Init/Main has `init` and
--                                    `main`, Init/Answers the whole program.
--   src/common/log.c      Log        the levels, in Log/Arrays the arrays for strings, in Log/Line a
--                                    message, in Log/Environment the
--                                    environment's variables, in Log/Macros the macros of
--                                    src/common/log.h, in Log/Tracing those for tracing.
--   src/common/common.c   Common     memory and buffers; Common/Io has read and write, Common/Select
--                                    the waiting for a descriptor, Common/Modes a descriptor's mode,
--                                    Common/Transcript the transcripts, Common/Transcribing
--                                    read and write with them, Common/Hexdump the dumps.
--
-- init reads the options and calls core, which in each turn of its loop lets sc proceed until the
-- switch has answered, gives the answer to the front end, and the user's next line to sc. sc keeps
-- three machines and one buffer each for what it reads, what it has to write, the reply and the
-- prompt; it feeds the machine that is current, and copies the backend's buffers when the machine
-- accepts the end of the data. The machines share the tokenizer and with it the variables of
-- ansiseq.c. The other files, Base and Memory, are helpers; Tests holds runs at concrete inputs.
--
-- What C functions do is a value of `Outcome`: a result, the end of the process by one of the calls
-- of the macro C, or behaviour that C leaves undefined, such as an access outside of an array. Bytes
-- are numbers below 256, a `size_t` has 64 bits and its sums and products wrap; memory is a list of
-- cells, a cell of a fresh block holding nothing until it is written. malloc and realloc are a
-- parameter, the record `Libc`, which says which requests are granted; what the kernel answers to
-- select, read and write is a list in the state, one answer for each call, which a run uses up.
--
-- Loops over a list of bytes or answers are recursion on the list. Four loops run on fuel: the one
-- that doubles a size has 65 rounds, since 64 doublings bring any size but 0 to 2 ^ 64 or beyond;
-- `fsm_feed` has one round more than there are bytes, since a token has one byte at least; the loop of
-- `uc_ia_hasdata` has one round more than select has answers, since each round uses one up; and the
-- loop of `core_run`, which may wait for ever, is given a number of rounds for each turn. A loop that
-- runs out of fuel is the fault `starved`, which is no result. The digits of a line number in a message
-- of the log are put together in 20 rounds, which do for numbers below 10 ^ 20.
--
-- What the build generates, the names of the log's modules, is an argument, and so is what the C
-- library gives for an option, a variable of the environment, the text of a message and the time.
-- Of the arrays of src/common/log.c, `v`, `errmsg` and `pad` are blocks with checked stores; the texts that
-- the C library cuts at the size of `payload`, `resmsg` and `s_ourname` are cut texts.
-- A call of the log changes nothing in the models of the other parts, except that the macros C and CE
-- end the process.
--
-- ansiseq_eatone makes an `int` of its count, and the tokenizer in src/back/hp/common_hp.c makes a `size_t`
-- of that; both conversions are in the models, and what is said of a count is said of input of at most
-- INT_MAX bytes. The position in `fsm_feed` is a sum that does not wrap in the model: it could only for a
-- count that the conversions made of a sequence of 2 ^ 31 bytes or more.
--
-- The functions that read and write append a transcript of each piece to a file. sc's conversation is
-- modelled without it; Common/Transcribing has both functions with it, and relates them.
--
-- Not modelled: the functions that dump a state; what is run as ssh; how a signal comes to its handler;
-- and the waiting that `msleep` asks for.
pub mod Base
pub mod Memory
pub mod Common
pub mod Ansiseq
pub mod Fsm
pub mod Hp
pub mod Back
pub mod Sc
pub mod Core
pub mod UcIa
pub mod Log
pub mod Uc
pub mod Spawn
pub mod Init
pub mod Tests
