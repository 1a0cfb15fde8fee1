-- ===== src/Shell/Tests.antt =====
-- userland/shell/CommandParser.cpp at concrete command lines.
use nekosys.Base.{◌≡◌, refl, true, false, [], ◌∷◌, ◌++◌, arith}
use nekosys.Neko.Text.{append_char}
use nekosys.Shell.{parse_command}
use nekosys.Shell.Quoting.{print_params, parse_command-print_params}

-- `ls "a b" "c"`
parse_command-print_params_example :
    parse_command ((108 ∷ 115 ∷ []) ++ print_params ((97 ∷ 32 ∷ 98 ∷ []) ∷ (99 ∷ []) ∷ []))
    ≡ record {
      file = 108 ∷ 115 ∷ [];
      params = (97 ∷ 32 ∷ 98 ∷ []) ∷ (99 ∷ []) ∷ [];
      background = false;
    }
parse_command-print_params_example =
    parse_command-print_params (108 ∷ 115 ∷ []) ((97 ∷ 32 ∷ 98 ∷ []) ∷ (99 ∷ []) ∷ [])
      (ground arith) (ground arith) (omega arith)

-- `a&b&`: the first ampersand ends the command.
ampersand_run :
    parse_command (97 ∷ 38 ∷ 98 ∷ 38 ∷ [])
    ≡ record { file = 97 ∷ []; params = []; background = true }
unfolding parse_command append_char
ampersand_run = refl
