-- ===== src/Range/Validate.antt =====
-- What `Validate` accepts, and that nothing it refuses comes out of `coalesce`.
use goyang.Base.{ℕ, ◌≤◌, ◌≡◌, ◌↔◌, refl, true, false, [], ◌∷◌, arith, All}
use goyang.Base.Result.{ok}
use goyang.Number.{Number}
use goyang.Number.Scale.{rank}
use goyang.Number.Order.{less-rank}
use goyang.Range.{YRange, YangRange, valid, is_sorted, overlaps, validate}
use goyang.Range.Spec.{IsRange, IsRanges, IsCoalesced}
use goyang.Range.Sort.{HasBounds, range_less-rank}

-- No range begins before `top`.
abbrev pub BeginsFrom : Number → YangRange → Type 0
BeginsFrom top = All (λ n. rank top ≤ rank n.min)

overlaps-BeginsFrom :
    (p : YRange) (rs : YangRange)
    → HasBounds p
    → All HasBounds rs
    → (overlaps p rs ≡ false) ↔ BeginsFrom p.max rs
unfolding overlaps
overlaps-BeginsFrom p [] hp h = ground arith
overlaps-BeginsFrom p (n ∷ rs) hp h =
    let test = less-rank h.0.min_canonical hp.max_canonical in
    let rest = overlaps-BeginsFrom p rs hp h.1 in
    (λ e. (ground (arith, test), rest.0 (ground arith)), λ k. ground (arith, test, rest.1 k.1))

-- `Validate` looks at the bounds of the first range alone: it accepts a sorted list exactly when
-- that range is valid and every other begins at or behind its end.
pub validate_iff :
    (p : YRange) (rs : YangRange)
    → HasBounds p
    → All HasBounds rs
    → (validate (p ∷ rs) ≡ ok tt)
      ↔ ((is_sorted (p ∷ rs) ≡ true) × (rank p.min ≤ rank p.max) × BeginsFrom p.max rs)
unfolding validate valid
validate_iff p rs hp h =
    let first = less-rank hp.max_canonical hp.min_canonical in
    let others = overlaps-BeginsFrom p rs hp h in
    (
      λ e. (ground arith, ground (arith, first), others.0 (ground arith)),
      λ k. ground (arith, first, others.1 k.2),
    )

IsRange-HasBounds : {d : ℕ} {r : YRange} → IsRange d r → HasBounds r
IsRange-HasBounds h = record {
  min_canonical = h.min_at.canonical;
  max_canonical = h.max_at.canonical;
}

pub IsRanges-HasBounds : (d : ℕ) (r : YangRange) → IsRanges d r → All HasBounds r
IsRanges-HasBounds d [] h = tt
IsRanges-HasBounds d (c ∷ rs) h = (IsRange-HasBounds h.0, IsRanges-HasBounds d rs h.1)

is_sorted-IsCoalesced :
    (d : ℕ) (r : YangRange) → IsRanges d r → IsCoalesced d r → is_sorted r ≡ true
unfolding is_sorted
is_sorted-IsCoalesced d [] h co = refl
is_sorted-IsCoalesced d (a ∷ []) h co = refl
is_sorted-IsCoalesced d (a ∷ b ∷ rs) h co = ground (
  arith,
  range_less-rank (IsRange-HasBounds h.1.0) (IsRange-HasBounds h.0),
  h.0.ordered,
  is_sorted-IsCoalesced d (b ∷ rs) h.1 co.1,
)

BeginsFrom-IsCoalesced :
    (d : ℕ) (top : Number) (p : YRange) (rs : YangRange)
    → IsRanges d (p ∷ rs)
    → IsCoalesced d (p ∷ rs)
    → rank top ≤ rank p.max
    → BeginsFrom top rs
BeginsFrom-IsCoalesced d top p [] h co le = tt
BeginsFrom-IsCoalesced d top p (b ∷ rs) h co le = (
  omega (arith, co.0),
  BeginsFrom-IsCoalesced d top b rs h.1 co.1 (omega (arith, co.0, h.1.0.ordered)),
)

pub validate-IsCoalesced :
    (d : ℕ) (r : YangRange) → IsRanges d r → IsCoalesced d r → validate r ≡ ok tt
validate-IsCoalesced d [] h co = unfold validate is_sorted in refl
validate-IsCoalesced d (p ∷ rs) h co =
    (validate_iff p rs (IsRange-HasBounds h.0) (IsRanges-HasBounds d rs h.1)).1 (
      is_sorted-IsCoalesced d (p ∷ rs) h co,
      h.0.ordered,
      BeginsFrom-IsCoalesced d p.max p rs h co (omega arith),
    )
