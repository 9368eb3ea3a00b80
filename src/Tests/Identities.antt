-- ===== src/Tests/Identities.antt =====
-- Runs of the model of pkg/yang/identity.go.
use goyang.Base.{ℕ, zero, suc, ◌≡◌, ◌<◌, true, List, [], ◌∷◌, some, Bytes, codes, arith, is_in}
use goyang.Identity.{Identity, Heap, values_of, sweep}
use goyang.Identity.Sweep.{IsSwept, sweep-IsSwept}

abbrev identity : Bytes → List ℕ → Identity
identity name values = record { name = name; base = []; root = 0; values = values }

-- The base 0 has the values 1 and 2, and 1 has the values 2 and 3.
abbrev family : Heap
family zero = identity (codes "base") (1 ∷ 2 ∷ [])
family (suc zero) = identity (codes "left") (2 ∷ 3 ∷ [])
family (suc (suc n)) = identity (codes "leaf") []

abbrev rank : ℕ → ℕ
rank zero = 2
rank (suc zero) = 1
rank (suc (suc n)) = 0

falls : (a c : ℕ) → is_in c (values_of family a) ≡ true → rank c < rank a
unfolding values_of
falls zero c h = ground arith
falls (suc zero) c h = ground arith
falls (suc (suc n)) c h = ground arith

enough : (a : ℕ) → rank a < 3
enough zero = omega arith
enough (suc zero) = omega arith
enough (suc (suc n)) = omega arith

sweep-IsSwept_example :
    (out : Heap) × (sweep 3 (0 ∷ 1 ∷ 2 ∷ 3 ∷ []) family ≡ some out)
    × IsSwept (0 ∷ 1 ∷ 2 ∷ 3 ∷ []) family out
sweep-IsSwept_example = sweep-IsSwept rank 3 enough (0 ∷ 1 ∷ 2 ∷ 3 ∷ []) family falls
