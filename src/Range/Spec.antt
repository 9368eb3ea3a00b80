-- ===== src/Range/Spec.antt =====
-- What a list of ranges stands for: the numbers that it holds. Predicates on ranges whose bounds
-- all have `d` fraction digits, as those of one type have.
use goyang.Base.{ℕ, ◌+◌, ◌≤◌, ◌<◌, ◌≡◌, Bool, false, ◌&&◌, ◌||◌, [], ◌∷◌, leb, ltb, arith, All}
use goyang.Number.{Number, less, add_quantum}
use goyang.Number.Scale.{rank}
use goyang.Number.Order.{less-rank, rank-add_quantum}
use goyang.Number.Steps.{step, IsAt, HasRoom}
use goyang.Range.{YRange, YangRange}

-- `n` is one of the values of `r`.
abbrev pub within : Number → YRange → Bool
within n r = leb (rank r.min) (rank n) && leb (rank n) (rank r.max)

-- `n` is one of the values of a list of ranges.
abbrev pub holds : Number → YangRange → Bool
holds n [] = false
holds n (r ∷ rs) = within n r || holds n rs

-- Two lists hold the same numbers of precision `d`.
abbrev pub SameNumbers : ℕ → YangRange → YangRange → Type 0
SameNumbers d r s = (n : Number) → IsAt d n → holds n r ≡ holds n s

-- A nonempty range.
pub record IsRange (d : ℕ) (r : YRange) : Type 0 where
  pub min_at : IsAt d r.min
  pub max_at : IsAt d r.max
  pub ordered : rank r.min ≤ rank r.max

abbrev pub IsRanges : ℕ → YangRange → Type 0
IsRanges d = All (IsRange d)

-- No bound but the last can be the greatest number of its precision.
abbrev pub HasInnerRoom : YangRange → Type 0
HasInnerRoom [] = Unit
HasInnerRoom (r ∷ []) = Unit
HasInnerRoom (r ∷ s ∷ rs) = HasRoom r.max × HasInnerRoom (s ∷ rs)

-- The lower bounds do not fall.
abbrev pub IsAscending : YangRange → Type 0
IsAscending [] = Unit
IsAscending (r ∷ []) = Unit
IsAscending (r ∷ s ∷ rs) = (rank r.min ≤ rank s.min) × IsAscending (s ∷ rs)

-- Each range ends more than a step before the next begins: no two can be joined.
abbrev pub IsCoalesced : ℕ → YangRange → Type 0
IsCoalesced d [] = Unit
IsCoalesced d (r ∷ []) = Unit
IsCoalesced d (r ∷ s ∷ rs) = (rank r.max + step d < rank s.min) × IsCoalesced d (s ∷ rs)

pub IsAscending-tail : (cur : YRange) (rs : YangRange) → IsAscending (cur ∷ rs) → IsAscending rs
IsAscending-tail cur [] h = tt
IsAscending-tail cur (s ∷ rs) h = h.1

-- The test of `coalesce` on numbers that do not overflow.
pub less-add_quantum :
    {d : ℕ} {n m : Number}
    → IsAt d n
    → IsAt d m
    → HasRoom n
    → less (add_quantum n 1) m ≡ ltb (rank n + step d) (rank m)
less-add_quantum {d} {n} {m} hn hm room =
    let (canonical, raised) = rank-add_quantum n hn.canonical room in
    rw (less-rank canonical hm.canonical, raised, hn.digits)

pub IsCoalesced-IsAscending :
    (d : ℕ) (r : YangRange) → IsRanges d r → IsCoalesced d r → IsAscending r
IsCoalesced-IsAscending d [] h co = tt
IsCoalesced-IsAscending d (a ∷ []) h co = tt
IsCoalesced-IsAscending d (a ∷ b ∷ rs) h co =
    (omega (arith, h.0.ordered, co.0), IsCoalesced-IsAscending d (b ∷ rs) h.1 co.1)
