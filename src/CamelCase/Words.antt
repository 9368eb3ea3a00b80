-- ===== src/CamelCase/Words.antt =====
-- What the names that `CamelCase` of pkg/yang/camelcase.go makes look like.
use goyang.Base.{
  ℕ, zero, suc, ◌≡◌, refl, Bool, true, false, not, ◌&&◌, ◌||◌, List, [], ◌∷◌, ◌++◌, Bytes, codes,
  text_eq, length, ◌==◌, arith, Bool-cases, inl, inr,
}
use goyang.Base.Strings.{has_prefix}
use goyang.Base.Tests.{if_cases}
use goyang.CamelCase.{
  is_ascii_lower, is_ascii_upper, is_ascii_digit, fix, lower_next, upper_next, lower_run, known,
  capital, words, pascal, camel_case, lower, dashed, hyphenate, camel_case_to_dash,
}

-- No underscore stands in front of a lower-case letter.
abbrev pub is_joined : Bytes → Bool
is_joined [] = true
is_joined (c ∷ s) = not (c == b'_' && lower_next s) && is_joined s

run-is_joined : (s t : Bytes) → is_joined t ≡ true → is_joined (lower_run s ++ t) ≡ true
unfolding lower_run
run-is_joined [] t h = h
run-is_joined (c ∷ s) t h = elim (Bool-cases (is_ascii_lower c)) [
  | inl e ↦ let tail = run-is_joined s t h in rw (e, lower_run) (ground (arith, e, tail))
  | inr e ↦ rw (e, lower_run) h
]

next_of_run : (s t : Bytes) → lower_next t ≡ false → lower_next (lower_run s ++ t) ≡ lower_next s
unfolding lower_run
next_of_run [] t n = n
next_of_run (c ∷ s) t n = elim (Bool-cases (is_ascii_lower c)) [
  | inl e ↦ rw (e, lower_run) (ground (arith, e))
  | inr e ↦ rw (e, lower_run) (ground (arith, e, n))
]

-- A word in front of a joined text that does not begin with a lower-case letter.
word-is_joined :
    (c : ℕ) (s t : Bytes)
    → (c == b'_' && lower_next s) ≡ false
    → is_joined t ≡ true
    → lower_next t ≡ false
    → is_joined (c ∷ lower_run s ++ t) ≡ true
word-is_joined c s t h j n =
    let tail = run-is_joined s t j in let head = next_of_run s t n in rw (head, h) tail

known-is_joined :
    (w t : Bytes) → is_joined (w ++ t) ≡ true → is_joined t ≡ true → is_joined (known w ++ t) ≡ true
unfolding known
known-is_joined w t h j = elim (Bool-cases (text_eq w (codes "Ietf"))) [
  | inl e ↦ rw (e, known) j
  | inr e ↦ rw (e, known) h
]

lower_next-known :
    (c : ℕ) (s t : Bytes) → is_ascii_lower c ≡ false → lower_next (known (c ∷ s) ++ t) ≡ false
unfolding known
lower_next-known c s t h = elim (Bool-cases (text_eq (c ∷ s) (codes "Ietf"))) [
  | inl e ↦ rw (e, known)
  | inr e ↦ rw (e, known) h
]

capital_lem : (c : ℕ) → is_ascii_lower (capital true c) ≡ false
unfolding capital
capital_lem c = ground arith

capital_underscore : (convert : Bool) (c : ℕ) → (capital convert c == b'_') ≡ (c == b'_')
unfolding capital
capital_underscore convert c = ground arith

-- What `words true` makes does not begin with a lower-case letter.
words_begin : (skip : ℕ) (s : Bytes) → lower_next (words true skip s) ≡ false
unfolding words
words_begin skip [] = refl
words_begin (suc skip) (b ∷ s) = words_begin skip s
words_begin zero (b ∷ s) =
    let P = λ (z : Bytes). lower_next z ≡ false in
    if_cases (fix b == b'_' && lower_next s) P (λ h. words_begin zero s)
      (λ n.
        if_cases (is_ascii_digit (fix b)) P (λ d. ground (arith, d))
          (λ d.
            lower_next-known (capital true (fix b)) (lower_run s)
              (words true (length (lower_run s)) s) (capital_lem (fix b))))

words-is_joined : (convert : Bool) (skip : ℕ) (s : Bytes) → is_joined (words convert skip s) ≡ true
unfolding words
words-is_joined convert skip [] = refl
words-is_joined convert (suc skip) (b ∷ s) = words-is_joined true skip s
words-is_joined convert zero (b ∷ s) =
    let P = λ (z : Bytes). is_joined z ≡ true in
    let after = words-is_joined true (length (lower_run s)) s in
    if_cases (fix b == b'_' && lower_next s) P (λ h. words-is_joined true zero s)
      (λ n.
        if_cases (is_ascii_digit (fix b)) P (λ d. ground (arith, d, words-is_joined true zero s))
          (λ d.
            known-is_joined (capital convert (fix b) ∷ lower_run s)
              (words true (length (lower_run s)) s)
              (word-is_joined (capital convert (fix b)) s (words true (length (lower_run s)) s)
                (rw (capital_underscore convert (fix b)) n) after
                (words_begin (length (lower_run s)) s))
              after))

-- In the names that CamelCase makes no underscore stands in front of a lower-case letter.
pub camel_case-is_joined : (s : Bytes) (opt : List Bool) → is_joined (camel_case s opt) ≡ true
unfolding camel_case
camel_case-is_joined [] opt = refl
camel_case-is_joined (c ∷ s) opt =
    let P = λ (z : Bytes). is_joined z ≡ true in
    if_cases (fix c == b'_') P (λ h. ground (arith, words-is_joined true zero s))
      (λ n. words-is_joined (pascal opt) zero (c ∷ s))

-- Whether a name begins with an upper-case letter.
abbrev pub is_exported : Bytes → Bool
is_exported [] = false
is_exported (c ∷ s) = is_ascii_upper c

is_exported-known :
    (c : ℕ) (s t : Bytes) → is_ascii_upper c ≡ true → is_exported (known (c ∷ s) ++ t) ≡ true
unfolding known
is_exported-known c s t h = elim (Bool-cases (text_eq (c ∷ s) (codes "Ietf"))) [
  | inl e ↦ rw (e, known)
  | inr e ↦ rw (e, known) h
]

capital_upper :
    (c : ℕ) (convert : Bool)
    → (is_ascii_lower c || is_ascii_upper c || fix c == b'_') ≡ true
    → fix c == b'_' ≡ false
    → convert ≡ true
    → is_ascii_upper (capital convert (fix c)) ≡ true
unfolding capital
capital_upper c convert h n p = ground (arith, h, n, p)

-- CamelCase of a name that begins with a letter, an underscore, a dash or a dot begins with an
-- upper-case letter, if Pascal case is not turned off.
pub is_exported-camel_case :
    (c : ℕ) (s : Bytes) (opt : List Bool)
    → (is_ascii_lower c || is_ascii_upper c || fix c == b'_') ≡ true
    → pascal opt ≡ true
    → is_exported (camel_case (c ∷ s) opt) ≡ true
unfolding camel_case words
is_exported-camel_case c s opt h p =
    let P = λ (z : Bytes). is_exported z ≡ true in
    if_cases (fix c == b'_') P (λ e. rw p)
      (λ n.
        if_cases (fix c == b'_' && lower_next s) P (λ e. ground (arith, e, n))
          (λ e.
            if_cases (is_ascii_digit (fix c)) P (λ d. ground (arith, d, h, n))
              (λ d.
                is_exported-known (capital (pascal opt) (fix c)) (lower_run s)
                  (words true (length (lower_run s)) s) (capital_upper c (pascal opt) h n p))))

abbrev pub has_underscore : Bytes → Bool
has_underscore [] = false
has_underscore (c ∷ s) = c == b'_' || has_underscore s

lower_lem : (c : ℕ) → c == b'_' ≡ false → lower c == b'_' ≡ false
unfolding lower
lower_lem c h = ground (arith, h)

dashed-has_underscore :
    (digits tested : Bool) (skip : ℕ) (s : Bytes)
    → has_underscore (dashed digits tested skip s) ≡ false
unfolding dashed
dashed-has_underscore digits tested skip [] = refl
dashed-has_underscore digits tested (suc skip) (c ∷ s) = dashed-has_underscore digits tested skip s
dashed-has_underscore digits tested zero (c ∷ s) =
    let P = λ (z : Bytes). has_underscore z ≡ false in
    let rest = dashed-has_underscore digits false zero s in
    if_cases (not tested && has_prefix (c ∷ s) (codes "IETF")) P
      (λ h. dashed-has_underscore digits true 3 s)
      (λ n.
        if_cases (is_ascii_digit c && not digits) P (λ d. ground (arith, d, rest))
          (λ d.
            if_cases (c == b'_') P (λ e. rest)
              (λ e. rw (lower_lem c e) (if_cases (upper_next s) P (λ u. rest) (λ u. rest)))))

-- CamelCaseToDash leaves no underscore in a name.
pub has_underscore-camel_case_to_dash :
    (s : Bytes) (opt : List Bool) → has_underscore (camel_case_to_dash s opt) ≡ false
unfolding camel_case_to_dash
has_underscore-camel_case_to_dash s opt = dashed-has_underscore (hyphenate opt) false zero s
