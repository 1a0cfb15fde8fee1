-- ===== src/Neko/FilePath/Print.antt =====
-- libneko/include/nk/path.h: the constructor and ToString.
use nekosys.Base.{
  ℕ, ◌<◌, ◌≡◌, ◌≢◌, sym, ap, ◌∙◌, Bool, true, false, List, [], ◌∷◌, ◌++◌, ltb, ◌==◌, if◌then◌else◌,
  length, All, arith, append_assoc, append-nil,
}
use nekosys.Neko.Text.{Text, append}
use nekosys.Neko.Text.Laws.{NoNul, NoNul-append, append_char-NoNul, append-NoNul}
use nekosys.Neko.FilePath.{
  FilePath, slash, parse_loop, parse, print_parts, to_string, IsPart, IsValid,
}

-- Each part with a slash behind it.
abbrev pub flat : List Text → Text
flat [] = []
flat (t ∷ ts) = t ++ (slash ∷ flat ts)

IsPart-NoNul : (t : Text) → All (λ c. (c ≢ slash) × (c ≢ 0)) t → NoNul t
IsPart-NoNul [] h = tt
IsPart-NoNul (c ∷ t) h = (h.0.1, IsPart-NoNul t h.1)

flat-NoNul : (ts : List Text) → All IsPart ts → NoNul (flat ts)
flat-NoNul [] h = tt
flat-NoNul (t ∷ ts) h =
    NoNul-append t (slash ∷ flat ts) (IsPart-NoNul t h.0.1) (omega arith, flat-NoNul ts h.1)

print_parts-flat :
    (ts : List Text) (acc : Text) → All IsPart ts → NoNul acc → print_parts ts acc ≡ acc ++ flat ts
unfolding print_parts
print_parts-flat [] acc h n = sym (append-nil acc)
print_parts-flat (t ∷ ts) acc h n =
    let nt = IsPart-NoNul t h.0.1 in
    let end : NoNul (slash ∷ []) = (omega arith, tt) in
    let one = NoNul-append t (slash ∷ []) nt end in
    rw (append-NoNul t (slash ∷ []) nt end, append-NoNul acc (t ++ slash ∷ []) n one)
      (print_parts-flat ts (acc ++ (t ++ slash ∷ [])) h.1 (NoNul-append acc _ n one)
        ∙ simp append_assoc)

parse_loop-char :
    (c : ℕ) (cs : Text) (abs : Bool) (ps : List Text) (temp : Text)
    → NoNul temp
    → (c ≢ slash) × (c ≢ 0)
    → parse_loop (c ∷ cs) abs ps temp ≡ parse_loop cs abs ps (temp ++ (c ∷ []))
unfolding parse_loop
parse_loop-char c cs abs ps temp n h =
    let other : (c == slash) ≡ false = ground (arith, h.0) in
    let e = append_char-NoNul temp c n h.1 in simp (other, e)

-- The loop collects the characters of a part, and a slash ends it.
parse_loop-part :
    (t rest : Text) (abs : Bool) (ps : List Text) (temp : Text)
    → All (λ c. (c ≢ slash) × (c ≢ 0)) t
    → NoNul temp
    → 0 < length (temp ++ t)
    → parse_loop (t ++ (slash ∷ rest)) abs ps temp
      ≡ parse_loop rest abs (ps ++ ((temp ++ t) ∷ [])) []
unfolding parse_loop
parse_loop-part [] rest abs ps temp h n pos =
    let e = append-nil temp in
    let full : ltb 0 (length temp) ≡ true = ground (arith, pos, ap length e) in
    rw e (ground (arith, full))
parse_loop-part (c ∷ t) rest abs ps temp h n pos =
    let shift : (temp ++ (c ∷ [])) ++ t ≡ temp ++ (c ∷ t) = append_assoc temp (c ∷ []) t in
    parse_loop-char c (t ++ (slash ∷ rest)) abs ps temp n h.0
    ∙ parse_loop-part t rest abs ps (temp ++ (c ∷ [])) h.1
        (NoNul-append temp (c ∷ []) n (h.0.1, tt)) (rw shift pos)
    ∙ ap (λ z. parse_loop rest abs (ps ++ (z ∷ [])) []) shift

parse_loop-flat :
    (ts : List Text) (abs : Bool) (ps : List Text)
    → All IsPart ts
    → parse_loop (flat ts) abs ps [] ≡ record { is_absolute = abs; parts = ps ++ ts }
unfolding parse_loop
parse_loop-flat [] abs ps h = rw (append-nil ps)
parse_loop-flat (t ∷ ts) abs ps h =
    parse_loop-part t (flat ts) abs ps [] h.0.1 tt h.0.0
    ∙ parse_loop-flat ts abs (ps ++ (t ∷ [])) h.1
    ∙ ap (λ z. record { is_absolute = abs; parts = z }) (append_assoc ps (t ∷ []) ts)

parse_printed :
    (abs : Bool) (ts : List Text)
    → All IsPart ts
    → parse_loop (print_parts ts (if abs then append [] (slash ∷ []) else [])) false [] []
      ≡ record { is_absolute = abs; parts = ts }
unfolding parse_loop
parse_printed true ts h =
    let end : NoNul (slash ∷ []) = (omega arith, tt) in
    rw (append-NoNul [] (slash ∷ []) tt end, print_parts-flat ts (slash ∷ []) h end)
      (parse_loop-flat ts true [] h)
parse_printed false ts h = rw (print_parts-flat ts [] h tt) (parse_loop-flat ts false [] h)

-- Printing a path whose parts are names and reading it back gives the same path, absolute or not.
pub parse-to_string : (p : FilePath) → IsValid p → parse (to_string p) ≡ p
unfolding parse to_string
parse-to_string p h = parse_printed p.is_absolute p.parts h
