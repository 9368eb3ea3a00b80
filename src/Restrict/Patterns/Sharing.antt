-- ===== src/Restrict/Patterns/Sharing.antt =====
-- Two types that append to the slice of the type below both, in `resolve` of pkg/yang/types.go.
use goyang.Base.{
  ℕ, zero, suc, ◌-◌, ◌≤◌, ◌<◌, ◌≡◌, refl, ◌∙◌, sym, ap, false, List, [], ◌∷◌, ◌++◌, Option, none,
  some, if◌then◌else◌, Bytes, ltb, length, take, replicate, get_elem?, update_at, arith, Bool-cases,
  inl, inr, length-append, length-update_at,
}
use goyang.Restrict.Patterns.{
  Slice, array_of, array, write, contents, append, has, add_patterns, resolve_patterns,
}
use goyang.Restrict.Patterns.Appending.{IsSlice, contents-append, array-write, take-update_at}

module _ {A : Type 0} where
  abbrev pub IsLive : List (List A) → Option ℕ → Type 0
  IsLive h none = Unit
  IsLive h (some i) = i < length h

  update_at-twice :
      (n : ℕ) (a b : A) (xs : List A)
      → update_at n (λ _. b) (update_at n (λ _. a) xs) ≡ update_at n (λ _. b) xs
  update_at-twice n a b [] = refl
  update_at-twice zero a b (x ∷ xs) = refl
  update_at-twice (suc n) a b (x ∷ xs) = ap (λ r. x ∷ r) (update_at-twice n a b xs)

  array_of-behind :
      (h : List (List A)) (x : List A) (i : ℕ)
      → i < length h
      → array_of (get_elem? (h ++ x ∷ []) i) ≡ array_of (get_elem? h i)
  array_of-behind [] x i k = ground arith
  array_of-behind (y ∷ h) x zero k = refl
  array_of-behind (y ∷ h) x (suc i) k = array_of-behind h x i (omega (arith, k))

  array-behind :
      (h : List (List A)) (x : List A) (o : Option ℕ)
      → IsLive h o
      → array (h ++ x ∷ []) o ≡ array h o
  unfolding array
  array-behind h x none k = refl
  array-behind h x (some i) k = array_of-behind h x i k

module _ {A : Type 0} (grow : ℕ → ℕ) (zero_value : A) (h : List (List A)) (s : Slice) where
  -- With room in the array the element is written there, without room into a new array.
  append_room :
      (a : A)
      → s.len < length (array h s.addr)
      → append grow zero_value h s a
        ≡ (write s.addr (update_at s.len (λ _. a)) h, record { addr = s.addr; len = suc s.len })
  unfolding append
  append_room a k = ground arith

  append_full :
      (a : A)
      → length (array h s.addr) ≤ s.len
      → append grow zero_value h s a ≡ (
        h ++ (contents h s ++ a ∷ replicate (grow s.len - suc s.len) zero_value) ∷ [],
        record { addr = some (length h); len = suc s.len },
      )
  unfolding append
  append_full a k = ground arith

module _ {A : Type 0} (grow : ℕ → ℕ) (zero_value : A) (h : List (List A)) (s : Slice)
    (fits : IsSlice h s) (live : IsLive h s.addr) where
  take-update_at_old : (n : ℕ) (a : A) (xs : List A) → take n (update_at n (λ _. a) xs) ≡ take n xs
  take-update_at_old n a [] = refl
  take-update_at_old zero a (x ∷ xs) = refl
  take-update_at_old (suc n) a (x ∷ xs) = ap (λ r. x ∷ r) (take-update_at_old n a xs)

  -- The slice itself is as it was, in the heap that `append` makes.
  contents_before : (a : A) → contents (append grow zero_value h s a).0 s ≡ contents h s
  unfolding contents
  contents_before a = elim (Bool-cases (ltb s.len (length (array h s.addr)))) [
    | inl e ↦
        rw
          (
            append_room grow zero_value h s a (ground arith),
            array-write h s.addr (update_at s.len (λ _. a)) (ground arith),
          )
          (take-update_at_old s.len a (array h s.addr))
    | inr e ↦
        rw
          (
            append_full grow zero_value h s a (ground arith),
            array-behind h (contents h s ++ a ∷ replicate (grow s.len - suc s.len) zero_value)
                s.addr live,
          )
          refl
  ]

  shared_room :
      (a b : A)
      → s.len < length (array h s.addr)
      → let r = append grow zero_value h s a in
        contents (append grow zero_value r.0 s b).0 r.1 ≡ contents h s ++ b ∷ []
  unfolding contents
  shared_room a b k =
      let w = array-write h s.addr (update_at s.len (λ _. a)) (ground (arith, k)) in
      let h1 = write s.addr (update_at s.len (λ _. a)) h in
      let k1 : s.len < length (array h1 s.addr) =
        rw w (ground (arith, k, length-update_at s.len (λ _. a) (array h s.addr))) in
      let w1 = array-write h1 s.addr (update_at s.len (λ _. b)) (ground (arith, k1)) in
      rw
        (
          append_room grow zero_value h s a k,
          append_room grow zero_value h1 s b k1,
          w1,
          w,
          update_at-twice s.len a b (array h s.addr),
        )
        (take-update_at s.len b (array h s.addr) k)

  shared_full :
      (a b : A)
      → length (array h s.addr) ≤ s.len
      → let r = append grow zero_value h s a in
        contents (append grow zero_value r.0 s b).0 r.1 ≡ contents h s ++ a ∷ []
  unfolding contents
  shared_full a b k =
      let new = contents h s ++ a ∷ replicate (grow s.len - suc s.len) zero_value in
      let h1 = h ++ new ∷ [] in
      let k1 : length (array h1 s.addr) ≤ s.len = rw (array-behind h new s.addr live) k in
      let e1 = append_full grow zero_value h s a k in
      let s1 : Slice = record { addr = some (length h); len = suc s.len } in
      let c : contents h1 s1 ≡ contents h s ++ a ∷ [] =
        ap (λ r. contents r.0 r.1) (sym e1) ∙ contents-append grow zero_value h s a fits in
      let next = contents h1 s ++ b ∷ replicate (grow s.len - suc s.len) zero_value in
      let live1 : length h < length h1 = omega (arith, length-append h (new ∷ [])) in
      rw (e1, append_full grow zero_value h1 s b k1, array-behind h1 next (some (length h)) live1) c

-- A statement with one pattern that the type below has not.
resolve_patterns-one :
    (grow : ℕ → ℕ) (p : Bytes) (h : List (List Bytes)) (s : Slice)
    → has p (contents h s) ≡ false
    → resolve_patterns grow (p ∷ []) h s ≡ append grow [] h s p
unfolding resolve_patterns add_patterns
resolve_patterns-one grow p h s e = rw (e, add_patterns) refl

-- Two types on the same type below, which has neither of their patterns, and whose slice is within
-- an array of the heap or nil: once the second has added its pattern, the first has the second's in
-- place of its own if the shared array has room for it, and its own if not.
pub resolve_patterns-shared :
    (grow : ℕ → ℕ) (p q : Bytes) (h : List (List Bytes)) (s : Slice)
    → IsSlice h s
    → IsLive h s.addr
    → has p (contents h s) ≡ false
    → has q (contents h s) ≡ false
    → let first = resolve_patterns grow (p ∷ []) h s in
      let second = resolve_patterns grow (q ∷ []) first.0 s in
      contents second.0 first.1
      ≡ contents h s ++ (if ltb s.len (length (array h s.addr)) then q else p) ∷ []
resolve_patterns-shared grow p q h s fits live hp hq =
    let old : has q (contents (append grow [] h s p).0 s) ≡ false =
      rw (contents_before grow [] h s fits live p) hq in
    rw
      (
        resolve_patterns-one grow p h s hp,
        resolve_patterns-one grow q (append grow [] h s p).0 s old,
      )
      (elim (Bool-cases (ltb s.len (length (array h s.addr)))) [
        | inl e ↦ rw e (shared_room grow [] h s fits live p q (ground arith))
        | inr e ↦ rw e (shared_full grow [] h s fits live p q (ground arith))
      ])
