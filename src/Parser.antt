-- ===== src/Parser.antt =====
-- clap/src/parser: the command line parser. A state machine consumes the tokens of the tokenizer and
-- fills the values map of its context.
pub mod Context
pub mod Errors
pub mod Machine
pub mod States
pub mod Loop
