-- ===== src/Files/Revisions.antt =====
-- The latest of several file names (pkg/yang/file.go): the last one of the sorted names is one of
-- them, and no other is greater.
use goyang.Base.{
  ◌≡◌, ◌⊎◌, refl, true, false, ◌||◌, List, [], ◌∷◌, Bytes, text_eq, text_eq_iff, text_lt, arith,
  Bool-cases, inl, inr, text_lt_weak, text_lt_trans, text_lt_irrefl, sym, subst, ⊎_elim, ◌∙◌,
}
use goyang.Files.{is_member, insert_text, sort_texts, last_of}

-- A text is no greater than another.
abbrev pub Below : Bytes → Bytes → Type 0
Below a b = text_lt b a ≡ false

-- Each text is no greater than those behind it.
abbrev IsSorted : List Bytes → Type 0
IsSorted [] = Unit
IsSorted (x ∷ xs) = ((y : Bytes) → is_member y xs ≡ true → Below x y) × IsSorted xs

is_member-insert_text :
    (y x : Bytes) (xs : List Bytes)
    → is_member y (insert_text x xs) ≡ (text_eq y x || is_member y xs)
unfolding is_member insert_text
is_member-insert_text y x [] = refl
is_member-insert_text y x (z ∷ xs) = ground (arith, is_member-insert_text y x xs)

lt-Below : (a b : Bytes) → text_lt a b ≡ true → Below a b
lt-Below a b h = ground (arith, text_lt_trans a b a, text_lt_irrefl a)

eq-Below : (a b : Bytes) → text_eq a b ≡ true → Below b a
eq-Below a b h = subst (λ z. Below z a) ((text_eq_iff a b).0 h) (text_lt_irrefl a)

insert_text-IsSorted : (x : Bytes) (xs : List Bytes) → IsSorted xs → IsSorted (insert_text x xs)
unfolding insert_text is_member
insert_text-IsSorted x [] h = (λ y m. ground arith, tt)
insert_text-IsSorted x (z ∷ xs) h = elim (Bool-cases (text_lt z x)) [
  | inl e ↦
      rw (insert_text, e)
        (
          λ y m. ground (
            arith,
            is_member-insert_text y x xs,
            h.0 y,
            λ (q : text_eq y x ≡ true).
                subst (Below z) (sym ((text_eq_iff y x).0 q)) (lt-Below z x e),
          ),
          insert_text-IsSorted x xs h.1,
        )
  | inr e ↦
      rw (insert_text, e)
        (
          λ y m. elim (Bool-cases (text_eq y z)) [
            | inl q ↦ subst (Below x) (sym ((text_eq_iff y z).0 q)) e
            | inr q ↦ text_lt_weak y z x (h.0 y (ground arith)) e
          ],
          h,
        )
]

sort_texts-IsSorted : (xs : List Bytes) → IsSorted (sort_texts xs)
unfolding sort_texts
sort_texts-IsSorted [] = tt
sort_texts-IsSorted (x ∷ xs) = insert_text-IsSorted x (sort_texts xs) (sort_texts-IsSorted xs)

is_member-sort_texts : (y : Bytes) (xs : List Bytes) → is_member y (sort_texts xs) ≡ is_member y xs
unfolding sort_texts is_member
is_member-sort_texts y [] = refl
is_member-sort_texts y (x ∷ xs) =
    ground (arith, is_member-insert_text y x (sort_texts xs), is_member-sort_texts y xs)

last_member :
    (d : Bytes) (xs : List Bytes) → (is_member (last_of d xs) xs ≡ true) ⊎ (last_of d xs ≡ d)
unfolding last_of is_member
last_member d [] = inr refl
last_member d (x ∷ xs) = ground (arith, last_member x xs, text_eq_iff (last_of x xs) x)

-- The last of a list that has an element is an element.
last_in :
    (xs : List Bytes) (r : Bytes) → is_member r xs ≡ true → is_member (last_of [] xs) xs ≡ true
unfolding last_of is_member
last_in [] r m = cc
last_in (x ∷ xs) r m = ground (arith, last_member x xs, text_eq_iff (last_of x xs) x)

self_member : (r : Bytes) (rs : List Bytes) → is_member r (r ∷ rs) ≡ true
unfolding is_member
self_member r rs = ground (arith, text_eq_iff r r)

last_greatest :
    (d y : Bytes) (xs : List Bytes) → IsSorted xs → is_member y xs ≡ true → Below y (last_of d xs)
unfolding last_of is_member
last_greatest d y [] h m = ground arith
last_greatest d y (x ∷ xs) h m = elim (Bool-cases (is_member y xs)) [
  | inl e ↦ last_greatest x y xs h.1 e
  | inr e ↦
      let same : y ≡ x = (text_eq_iff y x).0 (ground arith) in
      subst (λ z. Below z (last_of x xs)) (sym same)
        (⊎_elim (h.0 (last_of x xs)) (λ q. subst (Below x) (sym q) (text_lt_irrefl x))
          (last_member x xs))
]

-- The last one of the sorted names is one of the names, and none of them is greater.
pub last_latest :
    (r : Bytes) (rs : List Bytes)
    → (is_member (last_of [] (sort_texts (r ∷ rs))) (r ∷ rs) ≡ true)
      × ((y : Bytes) → is_member y (r ∷ rs) ≡ true → Below y (last_of [] (sort_texts (r ∷ rs))))
unfolding is_member
last_latest r rs =
    let all = sort_texts (r ∷ rs) in
    let member = is_member-sort_texts r (r ∷ rs) in
    (
      ground (
        arith,
        is_member-sort_texts (last_of [] all) (r ∷ rs),
        last_in all r (member ∙ self_member r rs),
      ),
      λ y m.
          last_greatest [] y all (sort_texts-IsSorted (r ∷ rs))
            (is_member-sort_texts y (r ∷ rs) ∙ m),
    )
