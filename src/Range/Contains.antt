-- ===== src/Range/Contains.antt =====
-- `Contains` decides inclusion of the numbers that two lists of ranges hold.
use goyang.Base.{
  ℕ, ◌+◌, ◌≤◌, ◌<◌, ◌≡◌, ◌↔◌, refl, ◌∙◌, true, false, [], ◌∷◌, arith, ltb, inl, inr, Bool-cases,
}
use goyang.Number.{Number, less, add_quantum}
use goyang.Number.Scale.{rank}
use goyang.Number.Order.{less-rank}
use goyang.Number.Steps.{step, IsAt, rank_apart, step_pos, add_quantum-IsAt}
use goyang.Range.{YRange, YangRange, advance, subsumes, contains_from, contains}
use goyang.Range.Spec.{within, holds, IsRange, IsRanges, IsAscending, IsCoalesced, IsAscending-tail}

-- Every number of precision `d` in `s` is in `r`.
abbrev pub IsWithin : ℕ → YangRange → YangRange → Type 0
IsWithin d s r = (n : Number) → IsAt d n → holds n s ≡ true → holds n r ≡ true

advance-IsRanges :
    (d : ℕ) (least : Number) (r : YangRange) → IsRanges d r → IsRanges d (advance least r)
unfolding advance
advance-IsRanges d least [] h = tt
advance-IsRanges d least (c ∷ rs) h = elim (Bool-cases (less c.max least)) [
  | inl e ↦ rw (e, advance) (advance-IsRanges d least rs h.1)
  | inr e ↦ rw (e, advance) h
]

-- What the loop skips holds nothing from `least` on.
holds-advance :
    {d : ℕ} (least : Number) (r : YangRange) (n : Number)
    → IsAt d least
    → IsRanges d r
    → rank least ≤ rank n
    → holds n (advance least r) ≡ holds n r
unfolding advance
holds-advance least [] n hl h le = refl
holds-advance least (c ∷ rs) n hl (hc, hrs) le =
    ground (arith, less-rank hc.max_at.canonical hl.canonical, holds-advance least rs n hl hrs le)

holds-advance_mono :
    (least : Number) (r : YangRange) (n : Number)
    → holds n (advance least r) ≡ true
    → holds n r ≡ true
unfolding advance
holds-advance_mono least [] n e = e
holds-advance_mono least (c ∷ rs) n e = ground (arith, holds-advance_mono least rs n)

subsumes_sound :
    {d : ℕ} (r : YangRange) (ss : YRange) (n : Number)
    → IsRanges d r
    → IsRange d ss
    → subsumes r ss ≡ true
    → within n ss ≡ true
    → holds n r ≡ true
unfolding subsumes
subsumes_sound [] ss n h hs e w = cc
subsumes_sound (c ∷ rs) ss n (hc, hrs) hs e w = ground (
  arith,
  less-rank hs.min_at.canonical hc.min_at.canonical,
  less-rank hc.max_at.canonical hs.max_at.canonical,
)

contains_from_sound :
    {d : ℕ} (r s : YangRange)
    → IsRanges d r
    → IsRanges d s
    → contains_from r s ≡ true
    → IsWithin d s r
unfolding contains_from
contains_from_sound r [] h hs e n hn w = cc
contains_from_sound r (ss ∷ s) h (hss, hs) e n hn w =
    let r' = advance ss.min r in
    let h' = advance-IsRanges _ ss.min r h in
    holds-advance_mono ss.min r n (
      ground (
        arith,
        subsumes_sound r' ss n h' hss,
        λ (q : contains_from r' s ≡ true). contains_from_sound r' s h' hs q n hn,
      ))

-- A number up to one step above a range is in none of those that follow it.
holds_beyond :
    {d : ℕ} (c : YRange) (rs : YangRange) (n : Number)
    → IsRanges d (c ∷ rs)
    → IsCoalesced d (c ∷ rs)
    → rank n ≤ rank c.max + step d
    → holds n rs ≡ false
holds_beyond c [] n h co le = refl
holds_beyond c (b ∷ rs) n h co le = ground (arith, holds_beyond b rs n h.1 co.1, h.1.0.ordered)

IsCoalesced-tail : (d : ℕ) (c : YRange) (rs : YangRange) → IsCoalesced d (c ∷ rs) → IsCoalesced d rs
IsCoalesced-tail d c [] h = tt
IsCoalesced-tail d c (b ∷ rs) h = h.1

advance-IsCoalesced :
    (d : ℕ) (least : Number) (r : YangRange) → IsCoalesced d r → IsCoalesced d (advance least r)
unfolding advance
advance-IsCoalesced d least [] h = tt
advance-IsCoalesced d least (c ∷ rs) h = elim (Bool-cases (less c.max least)) [
  | inl e ↦ rw (e, advance) (advance-IsCoalesced d least rs (IsCoalesced-tail d c rs h))
  | inr e ↦ rw (e, advance) h
]

-- Where the loop stops, the range that it stands at holds all of `ss`.
module _ {d : ℕ} (ss : YRange) (hs : IsRange d ss) where
  abbrev Covered : YangRange → Type 0
  Covered r = (n : Number) → IsAt d n → within n ss ≡ true → holds n r ≡ true

  -- The number one step above `c` lies in `ss`, and in no range.
  gap :
      (c : YRange) (rs : YangRange)
      → IsRanges d (c ∷ rs)
      → IsCoalesced d (c ∷ rs)
      → rank ss.min ≤ rank c.max
      → Covered (c ∷ rs)
      → rank c.max < rank ss.max
      → ⊥
  gap c rs h co le cov more =
      let (far, room) = rank_apart h.0.max_at hs.max_at more in
      let (at, up) = add_quantum-IsAt h.0.max_at room in
      let n = add_quantum c.max 1 in
      let found = cov n at (ground arith) in
      ground (arith, found, step_pos h.0.max_at, holds_beyond c rs n h co (omega arith))

  subsumes_here :
      (c : YRange) (rs : YangRange)
      → IsRanges d (c ∷ rs)
      → IsCoalesced d (c ∷ rs)
      → rank ss.min ≤ rank c.max
      → Covered (c ∷ rs)
      → subsumes (c ∷ rs) ss ≡ true
  unfolding subsumes
  subsumes_here c rs h co le cov =
      let low = cov ss.min hs.min_at (ground (arith, hs.ordered)) in
      let starts : rank c.min ≤ rank ss.min =
        ground (arith, low, holds_beyond c rs ss.min h co (omega arith)) in
      let ends : rank ss.max ≤ rank c.max = elim (Bool-cases (ltb (rank c.max) (rank ss.max))) [
        | inr done ↦ ground arith
        | inl more ↦ absurd (gap c rs h co le cov (ground arith))
      ] in
      ground (
        arith,
        starts,
        ends,
        less-rank hs.min_at.canonical h.0.min_at.canonical,
        less-rank h.0.max_at.canonical hs.max_at.canonical,
      )

  subsumes-advance :
      (r : YangRange)
      → IsRanges d r
      → IsCoalesced d r
      → Covered r
      → subsumes (advance ss.min r) ss ≡ true
  unfolding advance
  subsumes-advance [] h co cov = cc (cov ss.min hs.min_at (ground (arith, hs.ordered)))
  subsumes-advance (c ∷ rs) h co cov =
      let test = less-rank h.0.max_at.canonical hs.min_at.canonical in
      elim (Bool-cases (less c.max ss.min)) [
        | inl e ↦
            rw (e, advance)
              (subsumes-advance rs h.1 (IsCoalesced-tail d c rs co)
                (λ n hn w. ground (arith, test, cov n hn w)))
        | inr e ↦ rw (e, advance) (subsumes_here c rs h co (ground (arith, test)) cov)
      ]

-- On ascending ranges every number of the tail is at least the head's lower bound.
holds-IsAscending :
    (ss : YRange) (s : YangRange) (n : Number)
    → IsAscending (ss ∷ s)
    → holds n s ≡ true
    → rank ss.min ≤ rank n
holds-IsAscending ss [] n up e = cc
holds-IsAscending ss (t ∷ s) n up e = ground (arith, holds-IsAscending t s n up.1)

contains_from_complete :
    {d : ℕ} (r s : YangRange)
    → IsRanges d r
    → IsCoalesced d r
    → IsRanges d s
    → IsAscending s
    → IsWithin d s r
    → contains_from r s ≡ true
unfolding contains_from
contains_from_complete r [] h co hs up w = refl
contains_from_complete {d} r (ss ∷ s) h co (hss, hs) up w =
    let r' = advance ss.min r in
    let covers = subsumes-advance ss hss r h co (λ n hn e. w n hn (ground (arith, e))) in
    rw covers (
      contains_from_complete r' s (advance-IsRanges d ss.min r h)
        (advance-IsCoalesced d ss.min r co) hs (IsAscending-tail ss s up)
        (λ n hn e.
          let above = holds-IsAscending ss s n up e in
          holds-advance ss.min r n hss.min_at h above ∙ w n hn (ground (arith, e))))

-- Whatever `Contains` accepts is included, and on coalesced and ascending lists it accepts every
-- inclusion.
pub contains_iff :
    {d : ℕ} (c : YRange) (r s : YangRange)
    → IsRanges d (c ∷ r)
    → IsCoalesced d (c ∷ r)
    → IsRanges d s
    → IsAscending s
    → (contains (c ∷ r) s ≡ true) ↔ IsWithin d s (c ∷ r)
unfolding contains
contains_iff c r s h co hs up =
    (contains_from_sound (c ∷ r) s h hs, contains_from_complete (c ∷ r) s h co hs up)
