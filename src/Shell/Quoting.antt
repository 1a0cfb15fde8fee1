-- ===== src/Shell/Quoting.antt =====
-- userland/shell/CommandParser.cpp: command lines with quoted parameters.
use nekosys.Base.{
  ℕ, ◌≡◌, ◌≢◌, ◌&&◌, refl, sym, ap, ◌∙◌, true, false, List, [], ◌∷◌, ◌++◌, ◌==◌, arith, All,
  append_assoc, append-nil,
}
use nekosys.Neko.Text.{Text}
use nekosys.Neko.Text.Laws.{NoNul, NoNul-append, append_char-NoNul}
use nekosys.Shell.{
  ParserState, back, is_empty_text, step, parse_loop, start_state, finish_params, parse_command,
}

-- A parameter in quotation marks, with a space before it.
abbrev quoted : Text → Text
quoted p = 32 ∷ 34 ∷ (p ++ (34 ∷ []))

abbrev pub print_params : List Text → Text
print_params [] = []
print_params (p ∷ ps) = quoted p ++ print_params ps

-- What the parameters may be: not empty, without quotation marks and without NUL.
abbrev pub IsParam : Text → Type 0
IsParam p = (is_empty_text p ≡ false) × NoNul p × All (λ c. c ≢ 34) p

abbrev pub IsFile : Text → Type 0
IsFile f = NoNul f × All (λ c. c ≢ 32) f

module _ (last : ℕ) (not_cut : last ≢ 38) where
  parse_loop-cons :
      (s : ParserState) (c : ℕ) (rest : Text)
      → parse_loop last s (c ∷ rest) ≡ parse_loop last (step s c) rest
  unfolding parse_loop
  parse_loop-cons s c rest =
      let off : ((c == last) && (c == 38)) ≡ false = ground (arith, not_cut) in rw off refl

  -- The states of the parser: in the file's name, inside a parameter's quotation marks, behind them.
  abbrev in_file : Text → ParserState
  in_file f = record start_state { cmd = record start_state.cmd { file = f } }

  abbrev inside : Text → List Text → Text → ParserState
  inside f ps done = record {
    cmd = record { file = f; params = ps; background = false };
    filename_finished = true;
    in_quotes = true;
    parambuf = done;
  }

  abbrev behind : Text → List Text → Text → ParserState
  behind f ps done = record (inside f ps done) { in_quotes = false }

  step-in_file :
      (f : Text) (c : ℕ) → NoNul f → c ≢ 0 → c ≢ 32 → step (in_file f) c ≡ in_file (f ++ (c ∷ []))
  unfolding step
  step-in_file f c nf nz ns =
      let other : (c == 32) ≡ false = ground (arith, ns) in
      rw other (ap in_file (append_char-NoNul f c nf nz))

  step-inside :
      (f : Text) (ps : List Text) (done : Text) (c : ℕ)
      → NoNul done
      → c ≢ 0
      → c ≢ 34
      → step (inside f ps done) c ≡ inside f ps (done ++ (c ∷ []))
  unfolding step
  step-inside f ps done c nd nz nq =
      let other : (c == 34) ≡ false = ground (arith, nq) in
      rw other (ap (inside f ps) (append_char-NoNul done c nd nz))

  step-next :
      (f : Text) (ps : List Text) (cur : Text)
      → is_empty_text cur ≡ false
      → step (behind f ps cur) 32 ≡ behind f (ps ++ (cur ∷ [])) []
  unfolding step
  step-next f ps cur e = rw e refl

  file_loop :
      (f done rest : Text)
      → NoNul done
      → IsFile f
      → parse_loop last (in_file done) (f ++ rest) ≡ parse_loop last (in_file (done ++ f)) rest
  file_loop [] done rest nd h = ap (λ z. parse_loop last (in_file z) rest) (sym (append-nil done))
  file_loop (c ∷ f) done rest nd ((nz, nf), (ns, sf)) =
      parse_loop-cons (in_file done) c (f ++ rest)
      ∙ ap (λ z. parse_loop last z (f ++ rest)) (step-in_file done c nd nz ns)
      ∙ file_loop f (done ++ (c ∷ [])) rest (NoNul-append done (c ∷ []) nd (nz, tt)) (nf, sf)
      ∙ ap (λ z. parse_loop last (in_file z) rest) (append_assoc done (c ∷ []) f)

  param_loop :
      (f : Text) (ps : List Text) (p done rest : Text)
      → NoNul done
      → NoNul p
      → All (λ c. c ≢ 34) p
      → parse_loop last (inside f ps done) (p ++ rest)
        ≡ parse_loop last (inside f ps (done ++ p)) rest
  param_loop f ps [] done rest nd np nq =
      ap (λ z. parse_loop last (inside f ps z) rest) (sym (append-nil done))
  param_loop f ps (c ∷ p) done rest nd (nz, np) (nc, nq) =
      parse_loop-cons (inside f ps done) c (p ++ rest)
      ∙ ap (λ z. parse_loop last z (p ++ rest)) (step-inside f ps done c nd nz nc)
      ∙ param_loop f ps p (done ++ (c ∷ [])) rest (NoNul-append done (c ∷ []) nd (nz, tt)) np nq
      ∙ ap (λ z. parse_loop last (inside f ps z) rest) (append_assoc done (c ∷ []) p)

  -- From the opening quotation mark to behind the closing one.
  quoted_loop :
      (f : Text) (ps : List Text) (p rest : Text)
      → IsParam p
      → parse_loop last (behind f ps []) (34 ∷ ((p ++ (34 ∷ [])) ++ rest))
        ≡ parse_loop last (behind f ps p) rest
  unfolding step
  quoted_loop f ps p rest (_, np, nq) =
      parse_loop-cons (behind f ps []) 34 ((p ++ (34 ∷ [])) ++ rest)
      ∙ ap (parse_loop last (inside f ps [])) (append_assoc p (34 ∷ []) rest)
      ∙ param_loop f ps p [] (34 ∷ rest) tt np nq
      ∙ parse_loop-cons (inside f ps p) 34 rest

  params_loop :
      (f : Text) (done : List Text) (cur : Text) (ps : List Text)
      → is_empty_text cur ≡ false
      → All IsParam ps
      → finish_params (parse_loop last (behind f done cur) (print_params ps))
        ≡ record { file = f; params = done ++ (cur ∷ ps); background = false }
  unfolding parse_loop
  params_loop f done cur [] e _ = rw e refl
  params_loop f done cur (p ∷ ps) e (h, hs) =
      ap finish_params (
        parse_loop-cons (behind f done cur) 32 (34 ∷ ((p ++ (34 ∷ [])) ++ print_params ps))
        ∙ ap (λ z. parse_loop last z (34 ∷ ((p ++ (34 ∷ [])) ++ print_params ps)))
            (step-next f done cur e)
        ∙ quoted_loop f (done ++ (cur ∷ [])) p (print_params ps) h)
      ∙ params_loop f (done ++ (cur ∷ [])) p ps h.0 hs
      ∙ ap (λ z. record { file = f; params = z; background = false })
          (append_assoc done (cur ∷ []) (p ∷ ps))

  command_loop :
      (f : Text) (ps : List Text)
      → IsFile f
      → All IsParam ps
      → finish_params (parse_loop last start_state (f ++ print_params ps))
        ≡ record { file = f; params = ps; background = false }
  unfolding parse_loop step
  command_loop f [] h hs = ap finish_params (file_loop f [] [] tt h)
  command_loop f (p ∷ ps) h (hp, hs) =
      let rest = 34 ∷ ((p ++ (34 ∷ [])) ++ print_params ps) in
      ap finish_params (
        file_loop f [] (32 ∷ rest) tt h
        ∙ parse_loop-cons (in_file f) 32 rest
        ∙ quoted_loop f [] p (print_params ps) hp)
      ∙ params_loop f [] p ps hp.0 hs

-- A command line that has a file without spaces and each parameter in quotation marks, behind a
-- space, gives back the file and the parameters, not empty and free of quotation marks, where the
-- line does not end with an ampersand.
pub parse_command-print_params :
    (f : Text) (ps : List Text)
    → IsFile f
    → All IsParam ps
    → back 0 (f ++ print_params ps) ≢ 38
    → parse_command (f ++ print_params ps) ≡ record { file = f; params = ps; background = false }
unfolding parse_command
parse_command-print_params f ps h hs last =
    command_loop (back 0 (f ++ print_params ps)) last f ps h hs
