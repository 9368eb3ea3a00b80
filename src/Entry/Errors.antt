-- ===== src/Entry/Errors.antt =====
-- The order of error messages in pkg/yang/entry.go: `nless` and `sortedErrors.Less`.
use goyang.Base.{
  ℕ, zero, suc, ◌≡◌, refl, Bool, true, false, List, [], ◌∷◌, none, some, Bytes, text_lt,
  text_lt_trans, text_lt_irrefl, arith, if◌then◌else◌,
}
use goyang.Base.Int.{ℤ, ltb_ℤ}
use goyang.Base.Result.{Result, ok, err}
use goyang.Base.Strconv.{ConvError, parse_int10}
use goyang.Modules.Prefix.{cut_colon}

-- The results -1, 0 and 1 of `nless`.
pub data Sign : Type 0 where
  minus equal plus : Sign

unfoldable pub numeric : ℤ → ℤ → Sign
numeric a b = if ltb_ℤ a b then minus else if ltb_ℤ b a then plus else equal

unfoldable pub textual : Bytes → Bytes → Sign
unfolding text_lt
textual a b = if text_lt a b then minus else if text_lt b a then plus else equal

-- As numbers where both are, else as texts.
unfoldable pub nless : Bytes → Bytes → Sign
unfolding numeric textual parse_int10
nless a b = elim (parse_int10 a) [
  | err e ↦ textual a b
  | ok an ↦ elim (parse_int10 b) [ err e ↦ textual a b | ok bn ↦ numeric an bn ]
]

-- `strings.SplitN(s, ":", n)` for a positive `n`
unfoldable pub split_n : ℕ → Bytes → List Bytes
unfolding cut_colon
split_n zero s = []
split_n (suc zero) s = s ∷ []
split_n (suc (suc n)) s = elim (cut_colon s) [ none ↦ s ∷ [] | some p ↦ p.0 ∷ split_n (suc n) p.1 ]

-- the loop of `Less` over the parts behind the first
unfoldable pub less_rest : ℕ → List Bytes → List Bytes → Bool
unfolding nless
less_rest zero fi fj = false
less_rest (suc n) fi [] = false
less_rest (suc n) [] (y ∷ fj) = true
less_rest (suc n) (x ∷ fi) (y ∷ fj) =
    let rest = less_rest n fi fj in elim (nless x y) [ minus ↦ true | plus ↦ false | equal ↦ rest ]

unfoldable pub less_parts : List Bytes → List Bytes → Bool
unfolding less_rest text_lt
less_parts (x ∷ fi) (y ∷ fj) =
    if text_lt x y then true else if text_lt y x then false else less_rest 3 fi fj
less_parts _ _ = false

-- `Less` of two messages
unfoldable pub less : Bytes → Bytes → Bool
unfolding split_n less_parts
less a b = less_parts (split_n 4 a) (split_n 4 b)

abbrev opposite : Sign → Sign
opposite minus = plus
opposite equal = equal
opposite plus = minus

text_lt_asym : (a b : Bytes) → text_lt a b ≡ true → text_lt b a ≡ false
text_lt_asym a b h = ground (arith, text_lt_trans a b a, text_lt_irrefl a)

ltb_ℤ_asym : (a b : ℤ) → ltb_ℤ a b ≡ true → ltb_ℤ b a ≡ false
ltb_ℤ_asym a b h = ground arith

numeric_swap : (a b : ℤ) → numeric b a ≡ opposite (numeric a b)
unfolding numeric
numeric_swap a b = ground (arith, ltb_ℤ_asym a b, ltb_ℤ_asym b a)

textual_swap : (a b : Bytes) → textual b a ≡ opposite (textual a b)
unfolding textual
textual_swap a b = ground (arith, text_lt_asym a b, text_lt_asym b a)

swap_cases :
    (r s : Result ConvError ℤ) (a b : Bytes)
    → (elim s [
      | err e ↦ textual b a
      | ok bn ↦ elim r [ err e ↦ textual b a | ok an ↦ numeric bn an ]
    ])
      ≡ opposite (elim r [
        | err e ↦ textual a b
        | ok an ↦ elim s [ err e ↦ textual a b | ok bn ↦ numeric an bn ]
      ])
swap_cases (ok an) (ok bn) a b = numeric_swap an bn
swap_cases (ok an) (err f) a b = textual_swap a b
swap_cases (err e) (ok bn) a b = textual_swap a b
swap_cases (err e) (err f) a b = textual_swap a b

nless_swap : (a b : Bytes) → nless b a ≡ opposite (nless a b)
unfolding nless
nless_swap a b = swap_cases (parse_int10 a) (parse_int10 b) a b

less_rest_asym : (n : ℕ) (fi fj : List Bytes) → less_rest n fi fj ≡ true → less_rest n fj fi ≡ false
unfolding less_rest
less_rest_asym zero fi fj h = refl
less_rest_asym (suc n) fi [] h = ground arith
less_rest_asym (suc n) [] (y ∷ fj) h = refl
less_rest_asym (suc n) (x ∷ fi) (y ∷ fj) h = ground (arith, nless_swap x y, less_rest_asym n fi fj)

less_parts_asym : (fi fj : List Bytes) → less_parts fi fj ≡ true → less_parts fj fi ≡ false
unfolding less_parts
less_parts_asym (x ∷ fi) (y ∷ fj) h = ground (arith, text_lt_asym x y, less_rest_asym 3 fi fj)
less_parts_asym [] fj h = ground arith
less_parts_asym (x ∷ fi) [] h = ground arith

-- Of two messages at most one is less than the other.
pub less_asym : (a b : Bytes) → less a b ≡ true → less b a ≡ false
unfolding less
less_asym a b h = less_parts_asym (split_n 4 a) (split_n 4 b) h
