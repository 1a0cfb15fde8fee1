-- ===== src/Shell.antt =====
-- userland/shell/CommandParser.cpp and Command.h: command lines.
pub mod Quoting
mod Tests
use nekosys.Base.{
  ℕ, Bool, true, false, not, ◌&&◌, Option, none, some, List, [], ◌∷◌, ◌++◌, ◌==◌, if◌then◌else◌,
  length,
}
use nekosys.Neko.Text.{Text, append_char}

pub record Command : Type 0 where
  pub file : Text
  pub params : List Text
  pub background : Bool

-- The command and the locals of the parser's loop.
pub record ParserState : Type 0 where
  pub cmd : Command
  pub filename_finished : Bool
  pub in_quotes : Bool
  pub parambuf : Text

-- nk::String::back
abbrev pub back : ℕ → Text → ℕ
back c [] = c
back c (d ∷ ds) = back d ds

abbrev pub is_empty_text : Text → Bool
is_empty_text [] = true
is_empty_text (c ∷ cs) = false

abbrev pub add_param : ParserState → ParserState
add_param s = record s {
  cmd = record s.cmd { params = s.cmd.params ++ (s.parambuf ∷ []) };
  parambuf = [];
}

-- One character, 32 being a space and 34 a quotation mark.
unfoldable pub step : ParserState → ℕ → ParserState
step s chr =
    if not s.filename_finished
    then (if chr == 32
        then record s { filename_finished = true }
        else record s { cmd = record s.cmd { file = append_char s.cmd.file chr } })
    else (if chr == 34
        then record s { in_quotes = not s.in_quotes }
        else (if not s.in_quotes && chr == 32 && not (is_empty_text s.parambuf)
            then add_param s
            else record s { parambuf = append_char s.parambuf chr }))

-- The loop, with the input's last character; 38 is an ampersand.
unfoldable pub parse_loop : ℕ → ParserState → Text → ParserState
unfolding step
parse_loop last s [] = s
parse_loop last s (chr ∷ rest) =
    let more = parse_loop last (step s chr) rest in
    if chr == last && chr == 38 then record s { cmd = record s.cmd { background = true } } else more

abbrev pub start_state : ParserState
start_state = record {
  cmd = record { file = []; params = []; background = false };
  filename_finished = false;
  in_quotes = false;
  parambuf = [];
}

abbrev pub finish_params : ParserState → Command
finish_params s = if is_empty_text s.parambuf then s.cmd else (add_param s).cmd

unfoldable pub parse_command : Text → Command
unfolding parse_loop
parse_command input = finish_params (parse_loop (back 0 input) start_state input)
