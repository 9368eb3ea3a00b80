-- ===== src/Typedefs/Resolve/Growth.antt =====
-- States of the resolution in pkg/yang/types.go, of which one has what the other has.
use goyang.Base.{
  ℕ, ◌≡◌, refl, Bool, true, false, ◌||◌, ◌&&◌, List, [], ◌∷◌, ◌++◌, none, some, ◌==◌, arith,
}
use goyang.Base.Maps.{lookup, insert, lookup-insert}
use goyang.Typedefs.Resolve.{address_keys, Resolution, ResolveError, Outcome, set_type, set_typedef}

abbrev pub is_set : {Y : Type 0} → ℕ → List (ℕ × Y) → Bool
is_set a m = elim (lookup a m) [ none ↦ false | some y ↦ true ]

-- What had a `YangType` has one still.
pub record Grows {Y : Type 0} (s t : Resolution Y) : Type 0 where
  pub typedefs : (a : ℕ) → is_set a s.typedefs ≡ true → is_set a t.typedefs ≡ true
  pub types : (a : ℕ) → is_set a s.types ≡ true → is_set a t.types ≡ true

-- An outcome, in which what was resolved has a `YangType` if there are no errors.
pub record Returns {Y E : Type 0} (s : Resolution Y) (is_done : Resolution Y → Bool)
    (o : Outcome Y E) : Type 0 where
  pub errors : List (ResolveError E)
  pub after : Resolution Y
  pub outcome : o ≡ some (errors, after)
  pub grows : Grows s after
  pub is_complete : errors ≡ [] → is_done after ≡ true

pub is_set-insert :
    {Y : Type 0} (a b : ℕ) (y : Y) (m : List (ℕ × Y))
    → is_set b (insert a y m) ≡ (a == b || is_set b m)
is_set-insert a b y m = rw (is_set, lookup-insert a b y m) (ground arith)

abbrev pub all_set : {Y : Type 0} → List ℕ → List (ℕ × Y) → Bool
all_set [] m = true
all_set (a ∷ as_) m = is_set a m && all_set as_ m

pub concat_nil : {A : Type 0} (xs ys : List A) → xs ++ ys ≡ [] → (xs ≡ []) × (ys ≡ [])
concat_nil [] ys h = (refl, h)
concat_nil (x ∷ xs) ys h = ground (arith, h)

module _ {Y : Type 0} where
  pub self-Grows : (s : Resolution Y) → Grows s s
  self-Grows s = record { typedefs = λ a h. h; types = λ a h. h }

  pub trans-Grows : {s t u : Resolution Y} → Grows s t → Grows t u → Grows s u
  trans-Grows g h = record {
    typedefs = λ a k. h.typedefs a (g.typedefs a k);
    types = λ a k. h.types a (g.types a k);
  }

  pub set_type-Grows : (a : ℕ) (y : Y) (s : Resolution Y) → Grows s (set_type a y s)
  set_type-Grows a y s = record {
    typedefs = λ b h. h;
    types = λ b h. rw (is_set-insert a b y s.types) (ground (arith, h));
  }

  pub set_typedef-Grows : (a : ℕ) (y : Y) (s : Resolution Y) → Grows s (set_typedef a y s)
  set_typedef-Grows a y s = record {
    typedefs = λ b h. rw (is_set-insert a b y s.typedefs) (ground (arith, h));
    types = λ b h. h;
  }
