-- ===== src/Base/Strings/Parts.antt =====
-- `Split` takes a text that `Join` made of parts apart again.
use mathlib.Core.List.{append_assoc, append-nil}
use goyang.Base.{
  ℕ, suc, ◌==◌, ==_iff, false, ◌-◌, ◌≡◌, ◌≢◌, refl, ◌∙◌, ap, sym, true, List, [], ◌∷◌, ◌++◌, Bytes,
  All, length, arith,
}
use goyang.Base.Strings.{has_prefix, split_from, split, join}

has_prefix-append : (s t : Bytes) → has_prefix (s ++ t) s ≡ true
unfolding has_prefix
has_prefix-append [] [] = refl
has_prefix-append [] (c ∷ t) = refl
has_prefix-append (c ∷ s) t = ground (arith, has_prefix-append s t)

split_from-skip :
    (sep cur t rest : Bytes) → split_from sep (length t) cur (t ++ rest) ≡ split_from sep 0 cur rest
unfolding split_from
split_from-skip sep cur [] rest = refl
split_from-skip sep cur (c ∷ t) rest = split_from-skip sep cur t rest

-- No byte of a part is the first byte of the separator.
abbrev pub Avoids : ℕ → Bytes → Type 0
Avoids c s = All (λ b. b ≢ c) s

module _ (c : ℕ) (t : Bytes) where
  split_from-last : (cur p : Bytes) → Avoids c p → split_from (c ∷ t) 0 cur p ≡ (cur ++ p) ∷ []
  unfolding split_from has_prefix
  split_from-last cur [] h = ap (λ s. s ∷ []) (sym (append-nil cur))
  split_from-last cur (b ∷ p) (h, hs) =
      let e : (b == c) ≡ false = ground (arith, h) in
      rw e (split_from-last (cur ++ b ∷ []) p hs ∙ ap (λ s. s ∷ []) (append_assoc cur (b ∷ []) p))

  split_from-part :
      (cur p rest : Bytes)
      → Avoids c p
      → split_from (c ∷ t) 0 cur (p ++ (c ∷ (t ++ rest)))
        ≡ (cur ++ p) ∷ split_from (c ∷ t) 0 [] rest
  unfolding split_from has_prefix
  split_from-part cur [] rest h =
      let same : (c == c) ≡ true = (==_iff c c).1 refl in
      let size : suc (length t) - 1 ≡ length t = omega arith in
      rw (same, has_prefix-append t rest, size, split_from-skip (c ∷ t) [] t rest, append-nil cur)
        refl
  split_from-part cur (b ∷ p) rest (h, hs) =
      let e : (b == c) ≡ false = ground (arith, h) in
      rw e (
        split_from-part (cur ++ b ∷ []) p rest hs
        ∙ ap (λ s. s ∷ split_from (c ∷ t) 0 [] rest) (append_assoc cur (b ∷ []) p))

  -- Parts that have no first byte of the separator are found again in what `Join` makes of them.
  pub split-join :
      (p : Bytes) (ps : List Bytes)
      → All (Avoids c) (p ∷ ps)
      → split (join (p ∷ ps) (c ∷ t)) (c ∷ t) ≡ p ∷ ps
  unfolding split join
  split-join p [] h = split_from-last [] p h.0
  split-join p (q ∷ ps) h =
      split_from-part [] p (join (q ∷ ps) (c ∷ t)) h.0 ∙ ap (λ s. p ∷ s) (split-join q ps h.1)
