-- ===== src/Restrict/Patterns/Appending.antt =====
-- What `append` and the loops over it, in `resolve` of pkg/yang/types.go, do to a slice.
use goyang.Base.{
  ℕ, zero, suc, ◌-◌, ◌≤◌, ◌<◌, ◌≡◌, refl, ◌∙◌, sym, ap, subst, text_eq_iff, true, false, ◌||◌, List,
  [], ◌∷◌, ◌++◌, Option, none, some, Bytes, text_eq, ltb, length, take, replicate, get_elem?,
  get_elem?_last, update_at, arith, length-take, length-update_at, length-append, Bool-cases, inl,
  inr,
}
use mathlib.Core.List.{append_assoc, append-nil}
use goyang.YangType.Symmetry.{text_eq_comm}
use goyang.Restrict.Patterns.{
  Slice, array_of, array, write, contents, append, has, add_patterns, resolve_patterns,
}

module _ {A : Type 0} where
  pub take-update_at :
      (n : ℕ) (a : A) (xs : List A)
      → n < length xs
      → take (suc n) (update_at n (λ _. a) xs) ≡ take n xs ++ a ∷ []
  take-update_at n a [] h = ground arith
  take-update_at zero a (x ∷ xs) h = refl
  take-update_at (suc n) a (x ∷ xs) h = ap (λ r. x ∷ r) (take-update_at n a xs (omega (arith, h)))

  take-append :
      (n : ℕ) (xs : List A) (a : A) (ys : List A)
      → length xs ≡ n
      → take (suc n) (xs ++ a ∷ ys) ≡ xs ++ a ∷ []
  take-append zero [] a ys e = refl
  take-append zero (x ∷ xs) a ys e = ground (arith, e)
  take-append (suc n) [] a ys e = ground (arith, e)
  take-append (suc n) (x ∷ xs) a ys e = ap (λ r. x ∷ r) (take-append n xs a ys (omega (arith, e)))

  array_of-update_at :
      (h : List (List A)) (i : ℕ) (f : List A → List A)
      → 0 < length (array_of (get_elem? h i))
      → array_of (get_elem? (update_at i f h) i) ≡ f (array_of (get_elem? h i))
  array_of-update_at [] i f k = ground arith
  array_of-update_at (x ∷ h) zero f k = refl
  array_of-update_at (x ∷ h) (suc i) f k = array_of-update_at h i f k

  pub array-write :
      (h : List (List A)) (o : Option ℕ) (f : List A → List A)
      → 0 < length (array h o)
      → array (write o f h) o ≡ f (array h o)
  unfolding array write
  array-write h none f k = ground arith
  array-write h (some i) f k = array_of-update_at h i f k

  pub array-new : (h : List (List A)) (x : List A) → array (h ++ x ∷ []) (some (length h)) ≡ x
  unfolding array
  array-new h x = rw (get_elem?_last h x) refl

  -- A slice ends within its array.
  abbrev pub IsSlice : List (List A) → Slice → Type 0
  IsSlice h s = s.len ≤ length (array h s.addr)

module _ {A : Type 0} (grow : ℕ → ℕ) (zero_value : A) (h : List (List A)) (s : Slice) (a : A)
    (fits : IsSlice h s) where
  length-contents : length (contents h s) ≡ s.len
  unfolding contents
  length-contents = omega (arith, length-take s.len (array h s.addr), fits)

  -- What `append` returns holds the element behind those of the slice, and is within its array.
  pub contents-append :
      contents (append grow zero_value h s a).0 (append grow zero_value h s a).1
      ≡ contents h s ++ a ∷ []
  unfolding append contents
  contents-append = elim (Bool-cases (ltb s.len (length (array h s.addr)))) [
    | inl e ↦
        rw (e, append, array-write h s.addr (update_at s.len (λ _. a)) (ground (arith, fits)))
          (take-update_at s.len a (array h s.addr) (ground arith))
    | inr e ↦
        rw
          (
            e,
            append,
            array-new h (contents h s ++ a ∷ replicate (grow s.len - suc s.len) zero_value),
          )
          (take-append s.len (contents h s) a (replicate (grow s.len - suc s.len) zero_value)
            length-contents)
  ]

  pub append-IsSlice : IsSlice (append grow zero_value h s a).0 (append grow zero_value h s a).1
  unfolding append contents
  append-IsSlice = elim (Bool-cases (ltb s.len (length (array h s.addr)))) [
    | inl e ↦
        rw (e, append, array-write h s.addr (update_at s.len (λ _. a)) (ground (arith, fits)))
          (ground (arith, length-update_at s.len (λ _. a) (array h s.addr)))
    | inr e ↦
        rw
          (
            e,
            append,
            array-new h (contents h s ++ a ∷ replicate (grow s.len - suc s.len) zero_value),
          )
          (omega (
            arith,
            length-append (contents h s) (a ∷ replicate (grow s.len - suc s.len) zero_value),
            length-contents,
          ))
  ]

has-append : (q p : Bytes) (ps : List Bytes) → has q (ps ++ p ∷ []) ≡ (has q ps || text_eq q p)
unfolding has
has-append q p [] = ground arith
has-append q p (r ∷ ps) = rw (has-append q p ps) (ground arith)

-- No two elements are equal.
abbrev pub IsDistinct : List Bytes → Type 0
IsDistinct [] = Unit
IsDistinct (p ∷ ps) = (has p ps ≡ false) × IsDistinct ps

IsDistinct-append :
    (p : Bytes) (ps : List Bytes) → has p ps ≡ false → IsDistinct ps → IsDistinct (ps ++ p ∷ [])
unfolding has
IsDistinct-append p [] h d = (refl, tt)
IsDistinct-append p (q ∷ ps) h d = (
  rw (has-append q p ps) (ground (arith, d.0, text_eq_comm q p)),
  IsDistinct-append p ps (ground arith) d.1,
)

-- What adding patterns to those of a type makes: the old ones stay in front, no pattern stands
-- twice, and a pattern is there if it was or if it was added.
pub record Added (old ps result : List Bytes) : Type 0 where
  pub new : List Bytes
  pub old_first : result ≡ old ++ new
  pub distinct : IsDistinct result
  pub has_all : (q : Bytes) → has q result ≡ (has q old || has q ps)

text_eq-has :
    (q p : Bytes) (ps : List Bytes) → has p ps ≡ true → text_eq q p ≡ true → has q ps ≡ true
text_eq-has q p ps h e = subst (λ r. has r ps ≡ true) (sym ((text_eq_iff q p).0 e)) h

Added-skip :
    (old : List Bytes) (p : Bytes) (ps r : List Bytes)
    → has p old ≡ true
    → Added old ps r
    → Added old (p ∷ ps) r
unfolding has
Added-skip old p ps r h a = record {
  new = a.new;
  old_first = a.old_first;
  distinct = a.distinct;
  has_all = λ q. ground (arith, a.has_all q, text_eq-has q p old h);
}

Added-cons :
    (old : List Bytes) (p : Bytes) (ps r : List Bytes)
    → Added (old ++ p ∷ []) ps r
    → Added old (p ∷ ps) r
unfolding has
Added-cons old p ps r a = record {
  new = p ∷ a.new;
  old_first = a.old_first ∙ append_assoc old (p ∷ []) a.new;
  distinct = a.distinct;
  has_all = λ q. ground (arith, a.has_all q, has-append q p old);
}

module _ (grow : ℕ → ℕ) where
  add_patterns-Added :
      (seen ps : List Bytes) (h : List (List Bytes)) (s : Slice)
      → IsSlice h s
      → IsDistinct (contents h s)
      → ((q : Bytes) → has q seen ≡ has q (contents h s))
      → Added
          (contents h s)
          ps
          (contents (add_patterns grow seen ps h s).0 (add_patterns grow seen ps h s).1)
  unfolding add_patterns has
  add_patterns-Added seen [] h s fits d same = record {
    new = [];
    old_first = sym (append-nil (contents h s));
    distinct = d;
    has_all = λ q. ground arith;
  }
  add_patterns-Added seen (p ∷ ps) h s fits d same = elim (Bool-cases (has p seen)) [
    | inl e ↦
        rw (e, add_patterns)
          (Added-skip (contents h s) p ps
            (contents (add_patterns grow seen ps h s).0 (add_patterns grow seen ps h s).1)
            (sym (same p) ∙ e) (add_patterns-Added seen ps h s fits d same))
    | inr e ↦
        let h1 = (append grow [] h s p).0 in
        let s1 = (append grow [] h s p).1 in
        let r =
          contents (add_patterns grow (p ∷ seen) ps h1 s1).0
            (add_patterns grow (p ∷ seen) ps h1 s1).1 in
        let c : contents h1 s1 ≡ contents h s ++ p ∷ [] = contents-append grow [] h s p fits in
        let d1 : IsDistinct (contents h1 s1) =
          subst IsDistinct (sym c) (IsDistinct-append p (contents h s) (sym (same p) ∙ e) d) in
        rw (e, add_patterns)
          (Added-cons (contents h s) p ps r (
            subst (λ o. Added o ps r) c
              (add_patterns-Added (p ∷ seen) ps h1 s1 (append-IsSlice grow [] h s p fits) d1
                (λ q. rw (c, has-append q p (contents h s)) (ground (arith, same q))))))
  ]

  -- Where the patterns of the type below are distinct, in a slice within its array, those of a type
  -- behind a statement are those of the type below, then new ones, none of them twice, and each
  -- pattern of the statement is among them.
  pub resolve_patterns-Added :
      (ps : List Bytes) (h : List (List Bytes)) (s : Slice)
      → IsSlice h s
      → IsDistinct (contents h s)
      → Added
          (contents h s)
          ps
          (contents (resolve_patterns grow ps h s).0 (resolve_patterns grow ps h s).1)
  unfolding resolve_patterns
  resolve_patterns-Added ps h s fits d = add_patterns-Added (contents h s) ps h s fits d (λ q. refl)
