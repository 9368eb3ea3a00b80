-- ===== src/Range/Text/Child.antt =====
-- A child's ranges against its parent's: what `parseChildRanges` accepts and returns.
use goyang.Base.{
  ℕ, ◌≡◌, ◌↔◌, refl, sym, ◌∙◌, Bool, true, [], ◌∷◌, arith, Bytes, codes, if◌then◌else◌,
}
use goyang.Base.Result.{ok, err}
use goyang.Base.Strings.{split}
use goyang.Number.{Number}
use goyang.Number.Steps.{IsAt}
use goyang.Range.{YangRange, sort, coalesce, contains}
use goyang.Range.Coalesce.{coalesce-Joins}
use goyang.Range.Contains.{IsWithin, contains_iff}
use goyang.Range.Sort.{sort-All, sort-holds, sort-is_sorted}
use goyang.Range.Spec.{
  holds, SameNumbers, IsRange, IsRanges, HasInnerRoom, IsCoalesced, IsCoalesced-IsAscending,
}
use goyang.Range.Text.{not_within, ranges_of_parts, check_within, parse_child_ranges}
use goyang.Range.Validate.{validate-IsCoalesced, IsRanges-HasBounds}

-- What the parent lets a child's ranges hold: its own numbers, or anything if it has no ranges.
abbrev pub Allows : ℕ → YangRange → YangRange → Type 0
Allows d [] r = Unit
Allows d (c ∷ y) r = IsWithin d r (c ∷ y)

-- The ranges that the text's parts stand for, `r`, fit the parent `y`, and all have precision `d`.
pub record Fits (d : ℕ) (y r : YangRange) : Type 0 where
  pub parent_ranges : IsRanges d y
  pub parent_coalesced : IsCoalesced d y
  pub child_ranges : IsRanges d r
  pub child_room : HasInnerRoom (sort r)

module _ {d : ℕ} (y r : YangRange) (h : Fits d y r) where
  merged :
      IsRanges d (coalesce (sort r))
      × IsCoalesced d (coalesce (sort r))
      × SameNumbers d (coalesce (sort r)) (sort r)
  merged =
      let (_, up, _) = sort-is_sorted r (IsRanges-HasBounds d r h.child_ranges) in
      coalesce-Joins (sort r) (sort-All (IsRange d) r h.child_ranges) h.child_room up

  merged-holds : (n : Number) → IsAt d n → holds n (coalesce (sort r)) ≡ holds n r
  merged-holds n hn = merged.2 n hn ∙ sort-holds n r

  -- The last test, `Validate`, never fails.
  check_within-merged :
      check_within y (coalesce (sort r))
      ≡ (if contains y (coalesce (sort r)) then ok (coalesce (sort r)) else err not_within)
  unfolding check_within
  check_within-merged =
      let fine = validate-IsCoalesced d (coalesce (sort r)) merged.0 merged.1 in
      rw fine (ground arith)

contains-merged :
    {d : ℕ} (y r : YangRange) → Fits d y r → (contains y (coalesce (sort r)) ≡ true) ↔ Allows d y r
unfolding contains
contains-merged [] r h = (λ e. tt, λ w. refl)
contains-merged {d} (c ∷ y) r h =
    let (ranges, coalesced, _) = merged (c ∷ y) r h in
    let same = merged-holds (c ∷ y) r h in
    let both =
      contains_iff c y (coalesce (sort r)) h.parent_ranges h.parent_coalesced ranges
        (IsCoalesced-IsAscending d (coalesce (sort r)) ranges coalesced) in
    (
      λ e n hn k. both.0 e n hn (same n hn ∙ k),
      λ w. both.1 (λ n hn k. w n hn (sym (same n hn) ∙ k)),
    )

-- The result of a text whose parts are read as `r`: those ranges joined, if the parent, where it has
-- ranges, holds all their numbers, and the error `not within` if it does not.
pub parse_child_ranges_lem :
    {d : ℕ} (y r : YangRange)
    → Fits d y r
    → (s : Bytes) (decimal : Bool) → ranges_of_parts y decimal d (split s (codes "|")) ≡ ok r
    → (parse_child_ranges y s decimal d
        ≡ (if contains y (coalesce (sort r)) then ok (coalesce (sort r)) else err not_within))
      × ((contains y (coalesce (sort r)) ≡ true) ↔ Allows d y r)
      × IsCoalesced d (coalesce (sort r))
      × SameNumbers d (coalesce (sort r)) r
unfolding parse_child_ranges
parse_child_ranges_lem y r h s decimal e =
    (rw (e, check_within-merged y r h), contains-merged y r h, (merged y r h).1, merged-holds y r h)
