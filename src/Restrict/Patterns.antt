-- ===== src/Restrict/Patterns.antt =====
-- The patterns of a type, and the types of a union, in `resolve` of pkg/yang/types.go, on a heap of
-- arrays: `y := *td.YangType` copies slices, so a type shares its arrays with the type below.
--
-- A slice starts where its array starts, as all slices do that `append` makes. The capacity that
-- `append` gives a new array is the runtime's, an argument; the elements behind the last are the
-- zero value. `syntax.Parse` is an argument, and the extensions come from MatchingExtensions.
pub mod Appending
pub mod Sharing
use goyang.Base.{
  ℕ, suc, ◌-◌, Bool, true, false, ◌||◌, List, [], ◌∷◌, ◌++◌, Option, none, some, if◌then◌else◌,
  Bytes, text_eq, ltb, length, take, replicate, get_elem?, update_at,
}

pub record Slice : Type 0 where
  pub addr : Option ℕ
  pub len : ℕ

module _ {A : Type 0} where
  abbrev pub array_of : Option (List A) → List A
  array_of none = []
  array_of (some xs) = xs

  -- The array of a slice; a nil slice has none.
  unfoldable pub array : List (List A) → Option ℕ → List A
  array h none = []
  array h (some i) = array_of (get_elem? h i)

  unfoldable pub write : Option ℕ → (List A → List A) → List (List A) → List (List A)
  write none f h = h
  write (some i) f h = update_at i f h

  unfoldable pub contents : List (List A) → Slice → List A
  unfolding array
  contents h s = take s.len (array h s.addr)

  -- `append(s, a)`
  unfoldable pub append : (ℕ → ℕ) → A → List (List A) → Slice → A → List (List A) × Slice
  unfolding array contents write
  append grow zero h s a =
      if ltb s.len (length (array h s.addr))
      then (write s.addr (update_at s.len (λ _. a)) h, record { addr = s.addr; len = suc s.len })
      else (
        h ++ (contents h s ++ a ∷ replicate (grow s.len - suc s.len) zero) ∷ [],
        record { addr = some (length h); len = suc s.len },
      )

-- The map of patterns seen, as the list of its keys.
unfoldable pub has : Bytes → List Bytes → Bool
has q [] = false
has q (p ∷ ps) = text_eq q p || has q ps

module _ (grow : ℕ → ℕ) where
  -- The loop over the pattern statements
  unfoldable pub add_patterns :
      List Bytes → List Bytes → List (List Bytes) → Slice → List (List Bytes) × Slice
  unfolding append has
  add_patterns seen [] h s = (h, s)
  add_patterns seen (p ∷ ps) h s = elim (has p seen) [
    | true ↦ add_patterns seen ps h s
    | false ↦ let (h1, s1) = append grow [] h s p in add_patterns (p ∷ seen) ps h1 s1
  ]

  unfoldable pub resolve_patterns :
      List Bytes → List (List Bytes) → Slice → List (List Bytes) × Slice
  unfolding add_patterns contents
  resolve_patterns ps h s = add_patterns (contents h s) ps h s

  -- The loop over the posix-pattern extensions: `parse` gives what is wrong with a pattern, which is
  -- reported, and the pattern is added all the same.
  unfoldable pub resolve_posix :
      (Bytes → Option Bytes)
      → List Bytes
      → List (List Bytes)
      → Slice
      → List (Bytes × Bytes) × (List (List Bytes) × Slice)
  unfolding resolve_patterns
  resolve_posix parse ps h s = (bad_patterns ps, resolve_patterns ps h s)
    where
      bad_patterns : List Bytes → List (Bytes × Bytes)
      bad_patterns [] = []
      bad_patterns (p ∷ qs) = elim (parse p) [
        | none ↦ bad_patterns qs
        | some code ↦ (code, p) ∷ bad_patterns qs
      ]

-- The loop `looking`: the types of a union, none for one that was not resolved.
module _ {A : Type 0} (equal : A → A → Bool) (nil : A) (grow : ℕ → ℕ) where
  unfoldable pub has_type : A → List A → Bool
  has_type u [] = false
  has_type u (y ∷ ys) = equal u y || has_type u ys

  unfoldable pub add_types : List (Option A) → List (List A) → Slice → List (List A) × Slice
  unfolding append contents has_type
  add_types [] h s = (h, s)
  add_types (none ∷ us) h s = add_types us h s
  add_types (some u ∷ us) h s = elim (has_type u (contents h s)) [
    | true ↦ add_types us h s
    | false ↦ let (h1, s1) = append grow nil h s u in add_types us h1 s1
  ]
