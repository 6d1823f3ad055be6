-- ===== src/Parser/Context.antt =====
-- clap/include/clap/command_line_context.h and clap/src/parser/context.h: the data that the parser
-- shares between its states and with the Cli.
use asap_clap.Base.{Bool, true, List, [], ◌∷◌, ◌++◌, Option, none, some, Text, codes}
use asap_clap.Values.{OptionValue}
use asap_clap.Values.ValuesMap.{OptionValuesMap, store_value}
use asap_clap.Commands.{ClapOption, Command}

-- `active_command` and `ovm` are references to fields of the Cli: what the parser leaves here is
-- what the Cli finds. The streams are the pieces written to them; `in_` is never read.
pub record CommandLineContext : Type 0 where
  pub allow_long_option_value_with_no_equal : Bool
  pub out : List Text
  pub err : List Text
  pub program_name : Text
  pub active_command : Option Command
  pub ovm : OptionValuesMap

-- The constructor
unfoldable pub new_command_line_context :
    Text → Option Command → OptionValuesMap → CommandLineContext
new_command_line_context program_name active_command ovm = record {
  allow_long_option_value_with_no_equal = true;
  out = [];
  err = [];
  program_name = program_name;
  active_command = active_command;
  ovm = ovm;
}

pub record ParserContext : Type 0 where
  pub base : CommandLineContext
  pub open base use *
  pub commands : List Command
  pub active_option : Option ClapOption
  pub active_option_flag : Text
  pub positional_tokens : List Text

-- ParserContext::New
unfoldable pub new_parser_context : CommandLineContext → List Command → ParserContext
new_parser_context base commands = record {
  base = base;
  commands = commands;
  active_option = none;
  active_option_flag = codes "";
  positional_tokens = [];
}

abbrev pub set_active_command : Command → ParserContext → ParserContext
set_active_command c ctx = record ctx { base = record ctx.base { active_command = some c } }

-- `context->ovm.StoreValue(key, value)`
abbrev pub store : Text → OptionValue → ParserContext → ParserContext
store key v ctx = record ctx { base = record ctx.base { ovm = store_value key v ctx.ovm } }

abbrev pub print_err : Text → ParserContext → ParserContext
print_err s ctx = record ctx { base = record ctx.base { err = ctx.err ++ s ∷ [] } }
