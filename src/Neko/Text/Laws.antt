-- ===== src/Neko/Text/Laws.antt =====
-- libneko/include/nk/string.h: equality, prefixes and concatenation of strings without NUL.
use nekosys.Base.{
  ℕ, ◌+◌, ◌≡◌, ◌≢◌, ◌↔◌, refl, sym, ap, ap₂, ◌∙◌, true, [], ◌∷◌, ◌++◌, ◌==◌, ==_iff, length, All,
  arith, Bool-cases, inl, inr, length-append, append-nil,
}
use nekosys.Neko.Text.{
  Text, c_string, same_loop, equals_c, equals, append_char, append, starts_with,
}

-- A string without NUL bytes.
abbrev pub NoNul : Text → Type 0
NoNul = All (λ c. c ≢ 0)

pub NoNul-append : (s t : Text) → NoNul s → NoNul t → NoNul (s ++ t)
NoNul-append [] t hs ht = ht
NoNul-append (c ∷ s) t hs ht = (hs.0, NoNul-append s t hs.1 ht)

pub c_string-NoNul : (s : Text) → NoNul s → c_string s ≡ s
unfolding c_string
c_string-NoNul [] h = refl
c_string-NoNul (c ∷ s) h = ground (arith, h.0, c_string-NoNul s h.1)

pub append_char-NoNul : (s : Text) (c : ℕ) → NoNul s → c ≢ 0 → append_char s c ≡ s ++ (c ∷ [])
unfolding append_char
append_char-NoNul s c h n = c_string-NoNul _ (NoNul-append s (c ∷ []) h (n, tt))

pub append-NoNul : (s t : Text) → NoNul s → NoNul t → append s t ≡ s ++ t
unfolding append
append-NoNul s t hs ht = c_string-NoNul _ (NoNul-append s t hs ht)

same_loop-prefix : (s t : Text) → (same_loop s t (length t) ≡ true) ↔ ((r : Text) × (s ≡ t ++ r))
unfolding same_loop
same_loop-prefix s [] = (λ e. (s, refl), λ e. refl)
same_loop-prefix [] (d ∷ t) = (λ e. cc, λ (r, e). cc)
same_loop-prefix (c ∷ s) (d ∷ t) = elim (Bool-cases (c == d)) [
  | inl same ↦
      let q : c ≡ d = (==_iff c d).0 same in
      let ih = same_loop-prefix s t in
      (
        λ e. let (r, p) = ih.0 (ground (arith, same)) in (r, ap₂ ◌∷◌ q p),
        λ (r, e). let q : s ≡ t ++ r = cc in let all = ih.1 (r, q) in ground (arith, same, all),
      )
  | inr other ↦
      (λ e. ground (arith, other), λ (r, e). let q : c ≡ d = cc in ground (arith, other, q))
]

-- `StartsWith` holds exactly of the prefixes.
pub starts_with-prefix : (s t : Text) → (starts_with s t ≡ true) ↔ ((r : Text) × (s ≡ t ++ r))
unfolding starts_with
starts_with-prefix s t = (
  λ e. (same_loop-prefix s t).0 (ground (arith, e)),
  λ (r, e).
      let all = (same_loop-prefix s t).1 (r, e) in
      let len : length s ≡ length t + length r = ap length e ∙ length-append t r in
      ground (arith, all, len),
)

nil_of_length : (r : Text) → length r ≡ 0 → r ≡ []
nil_of_length [] h = refl
nil_of_length (c ∷ r) h = absurd (omega arith)

same_loop-eq : (s t : Text) → length s ≡ length t → (same_loop s t (length s) ≡ true) ↔ (s ≡ t)
same_loop-eq s t h = (
  λ e.
      let all : same_loop s t (length t) ≡ true = rw (← h) e in
      let (r, p) = (same_loop-prefix s t).0 all in
      let len : length r ≡ 0 = omega (arith, ap length p, length-append t r, h) in
      p ∙ ap (λ z. t ++ z) (nil_of_length r len) ∙ append-nil t,
  λ e. let all = (same_loop-prefix s t).1 ([], e ∙ sym (append-nil t)) in rw h all,
)

-- The comparison with a C string that has no NUL before its end.
pub equals_c_iff : (s t : Text) → NoNul t → (equals_c s t ≡ true) ↔ (s ≡ t)
unfolding equals_c
equals_c_iff s t n = rw (c_string-NoNul t n) (
  λ e.
      let len : length s ≡ length t = ground (arith, e) in
      (same_loop-eq s t len).0 (ground (arith, e)),
  λ e.
      let len : length s ≡ length t = ap length e in
      let all = (same_loop-eq s t len).1 e in ground (arith, all, len),
)

-- Two strings compare equal exactly if they are, when the second has no NUL byte.
pub equals_iff : (s t : Text) → NoNul t → (equals s t ≡ true) ↔ (s ≡ t)
unfolding equals
equals_iff s t n = (
  λ e. (equals_c_iff s t n).0 (ground (arith, e)),
  λ e. let c = (equals_c_iff s t n).1 e in ground (arith, c, ap length e),
)
