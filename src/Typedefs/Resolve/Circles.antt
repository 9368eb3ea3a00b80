-- ===== src/Typedefs/Resolve/Circles.antt =====
-- Typedefs of pkg/yang/types.go that lead back to themselves.
use goyang.Base.{ℕ, zero, suc, ◌≡◌, refl, true, none}
use goyang.Base.Maps.{lookup}
use goyang.Base.Result.{ok}
use goyang.Typedefs.{Source}
use goyang.Typedefs.Resolve.{
  address_keys, Resolution, Parts, if_none, resolve_typedef, resolve_type,
}

module _ {Y E : Type 0} (p : Parts Y E) (s : Resolution Y) where
  -- A typedef without `YangType` whose type, without one too, names a typedef in `C`.
  pub record LeadsInto (C : ℕ → Type 0) (td : ℕ) : Type 0 where
    pub next : ℕ
    pub source : Source
    pub stays : C next
    pub child : (p.typedef_at td).has_parent ≡ true
    pub new_typedef : lookup td s.typedefs ≡ none
    pub new_type : lookup (p.typedef_at td).type s.types ≡ none
    pub named : p.look (p.typedef_at td).type ≡ ok (source, next)

  module _ (C : ℕ → Type 0) (closed : (td : ℕ) → C td → LeadsInto C td) where
    mutual
      unfolding resolve_typedef

      circle_typedef : (fuel td : ℕ) → C td → resolve_typedef p fuel td s ≡ none
      circle_typedef zero td c = refl
      circle_typedef (suc fuel) td c =
          let h = closed td c in
          rw (h.child, h.new_typedef, circle_type fuel td c, resolve_typedef, if_none) refl

      circle_type : (fuel td : ℕ) → C td → resolve_type p fuel (p.typedef_at td).type s ≡ none
      circle_type zero td c = refl
      circle_type (suc fuel) td c =
          let h = closed td c in
          rw (h.new_type, h.named, circle_typedef fuel h.next h.stays, resolve_type, if_none) refl

    -- Typedefs of which each is based on another of them, none of them resolved, are resolved with no
    -- fuel: the program recurses without end.
    pub circle-resolve_typedef : (fuel td : ℕ) → C td → resolve_typedef p fuel td s ≡ none
    circle-resolve_typedef = circle_typedef
