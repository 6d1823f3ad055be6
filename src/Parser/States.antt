-- ===== src/Parser/States.antt =====
-- clap/src/parser/states.h, a module for each state with what it does on entering, on leaving and on an
-- event, and their assembly into the handlers of the state machine.
pub mod Initial
pub mod Identify
pub mod Options
pub mod ShortOption
pub mod LongOption
pub mod Final
pub mod Handlers
pub mod Required
pub mod Missing
pub mod Complete
pub mod Defaults
pub mod Kept
pub mod Once
pub mod Origins
pub mod Idle
pub mod Path
pub mod Among
pub mod Positionals
pub mod Narrowing
pub mod Matching
pub mod Longest
