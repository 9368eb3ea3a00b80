-- ===== src/Modules/Names.antt =====
-- Names and full names of modules (pkg/yang/yang.go): a full name is the bare name, or goes on with
-- an at sign, so it is no bare name of another module.
use goyang.Base.{
  ◌≡◌, ◌⊎◌, inl, inr, refl, Bool, true, ◌||◌, false, [], ◌∷◌, ◌++◌, Bytes, ◌==◌, arith,
}
use goyang.Modules.{Module, full_name, current}

-- Whether a text has an at sign.
abbrev pub has_at : Bytes → Bool
has_at [] = false
has_at (c ∷ s) = c == b'@' || has_at s

has_at-append : (s t : Bytes) → has_at (s ++ (b'@' ∷ t)) ≡ true
has_at-append [] t = refl
has_at-append (c ∷ s) t = ground (arith, has_at-append s t)

abbrev dated : Bytes → Bytes → Bytes
dated n rev = elim rev [ [] ↦ n | c ∷ cs ↦ n ++ (b'@' ∷ c ∷ cs) ]

dated_cases : (n rev : Bytes) → (dated n rev ≡ n) ⊎ (has_at (dated n rev) ≡ true)
dated_cases n [] = inl refl
dated_cases n (c ∷ cs) = inr (has_at-append n (c ∷ cs))

pub full_name_cases : (m : Module) → (full_name m ≡ m.name) ⊎ (has_at (full_name m) ≡ true)
unfolding full_name
full_name_cases m = dated_cases m.name (current m)
