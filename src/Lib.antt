-- ===== src/Lib.antt =====
-- asap-clap: a verification library for the command line argument parser under clap/.
--
-- The program. A client describes options and commands with the fluent builders (clap/src/fluent,
-- clap/include/clap/fluent) and builds a Cli. `Cli::Parse` (clap/src/cli.cpp) turns `argv` into a
-- Tokenizer (clap/src/parser/tokenizer.cpp), which runs each argument through a small state
-- machine and hands out typed tokens; `CmdLineParser::Parse` (clap/src/parser/parser.cpp) feeds
-- those tokens to a second state machine (clap/src/parser/states.h), whose states share one
-- ParserContext: the active command, the option being parsed, the positional tokens, and a map of
-- the values found (clap/include/clap/option_values_map.h). FinalState hands the positional tokens
-- out, fills in default values and checks that required options are there.
--
-- The files. Base has the shared tests, lists, texts (lists of byte codes) and Outcome, which is a
-- value or a fault: a failed ASAP_EXPECT or ASAP_ASSERT, undefined behaviour, or an exception. Fsm
-- is the interface to asap-fsm and Format the one to fmt. Tokenizer models tokenizer.h and
-- tokenizer.cpp; Values the values and their map, Values/ParseValue detail/parse_value.h,
-- Values/Typed the access to a value
-- by its type, Values/Descriptor detail/value_descriptor.h; Commands option.h and command.h, with
-- Commands/Printing for option.cpp and command.cpp; Parser/Context, Parser/Errors, Parser/States
-- and Parser/Loop the parser, with a module for each state; Builders the builders of options and
-- commands; Cli, Cli/Builder, Cli/Help and Cli/Parsing the Cli and its builder; Simple the program
-- clap/examples/simple/simple_example.cpp, a client of all of them. Examples has runs and a
-- concrete use of each theorem. A function of the model has the name of the C++ function in snake
-- case: enter_x, leave_x and handle_x are the OnEnter, OnLeave and Handle of state X.
--
-- The proofs on the parser. Base/Chains says what a call gives from what its parts give. Under
-- Parser/States stand the properties of single states: Required, Defaults and Missing on the
-- checks of FinalState, Positionals on its positional arguments, Narrowing, Matching and Longest
-- on IdentifyCommandState, Among and Path on the segments of one path, Idle on what the other states leave alone. Kept has, for any property of the
-- values map that fits how the states store values (a Discipline), that every handler keeps it; Once and
-- Origins are two of them, that an option has one value at most and that values come from options. Under Parser/Loop stand those of the loop: Tokens takes the tokenizer
-- out of it, Total and Fuel are on the rounds, Ending on the last of them, Reached has the rounds
-- as a step relation, Identified has invariants of them, Kept, Once, Origins and Typed are on the
-- values map that `Parse` leaves, and Assignments is on options
-- written on a command line and read back, and on an option behind them that is refused. Cli/Parsing has
-- the theorems on the whole of `Cli::Parse`, HelpFlag, HelpPath and Failure among them.
--
-- How the code corresponds. Objects that share a context through a pointer become one record,
-- Memory, passed from call to call; the fields of the state objects stand beside the context in
-- it. A shared_ptr or a std::any that may be empty is an Option. Writing to a stream appends to a
-- list of texts. The loop of the parser has fuel: two rounds for each token and two more, since an
-- event is reissued at most once for each token. A variable to store to and a function to
-- call are numbers, and `Notify` gives the list of its effects. Machine integers keep their width: a conversion
-- to w bits wraps modulo 2 ^ w and is compared with the value before it.
--
-- Parameters. The engine of asap-fsm is a parameter with the laws of Fsm.IsEngine, which say in
-- which order it calls Handle, OnLeave and OnEnter and what it returns; Fsm/Reference has an
-- engine that meets them. fmt::format and fmt::join are the record Fmt, the wrapping of asap-
-- textwrap is the function Wrap, and the casts of magic_enum stand in the type of an enumeration,
-- std::stold and the cast of its result in a floating point type, whose numbers are their bits.
-- What operator<< writes for a value is a function. std::stoll and std::stoull are written out
-- after their documentation for base 10.
--
-- Not modelled: log output and the tests.
pub mod Base
pub mod Fsm
pub mod Tokenizer
pub mod Values
pub mod Format
pub mod Commands
pub mod Parser
pub mod Simple
pub mod Builders
pub mod Cli
pub mod Examples
