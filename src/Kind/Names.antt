-- ===== src/Kind/Names.antt =====
-- The two maps are inverse to one another.
use goyang.Base.{
  ◌≡◌, ◌↔◌, refl, subst, subst₂, List, [], ◌∷◌, some, Bytes, text_eq, text_eq_iff, arith, All,
  Bool-cases, inl, inr,
}
use goyang.Base.Maps.{lookup}
use goyang.Enum.{text_keys}
use goyang.Kind.{
  TypeKind, unknown, type_kind_from_name, kind_string, kind_of_name, ynone, yint8, yint16, yint32,
  yint64, yuint8, yuint16, yuint32, yuint64, ybinary, ybits, ybool, ydecimal64, yempty, yenum,
  yidentityref, yinstance_identifier, yleafref, ystring, yunion,
}

-- What holds of every entry holds of the one that a lookup finds.
lookup-All :
    (P : Bytes → TypeKind → Type 0) (s : Bytes) {k : TypeKind} (m : List (Bytes × TypeKind))
    → All (λ p. P p.0 p.1) m
    → lookup s m ≡ some k
    → P s k
unfolding lookup
lookup-All P s [] h e = cc
lookup-All P s {k} ((t, j) ∷ m) h e = elim (Bool-cases (text_eq t s)) [
  | inl same ↦
      let key = (text_eq_iff t s).0 same in
      let found : j ≡ k = ground arith in subst₂ P key found h.0
  | inr other ↦ lookup-All P s m h.1 (ground arith)
]

-- A kind that has a constant.
abbrev pub IsKnown : TypeKind → Type 0
IsKnown (unknown d) = ⊥
IsKnown _ = Unit

kind_of_name-kind_string : (k : TypeKind) → IsKnown k → kind_of_name (kind_string k) ≡ some k
unfolding kind_of_name kind_string lookup text_eq
kind_of_name-kind_string (unknown d) h = absurd h
kind_of_name-kind_string ynone h = refl
kind_of_name-kind_string yint8 h = refl
kind_of_name-kind_string yint16 h = refl
kind_of_name-kind_string yint32 h = refl
kind_of_name-kind_string yint64 h = refl
kind_of_name-kind_string yuint8 h = refl
kind_of_name-kind_string yuint16 h = refl
kind_of_name-kind_string yuint32 h = refl
kind_of_name-kind_string yuint64 h = refl
kind_of_name-kind_string ybinary h = refl
kind_of_name-kind_string ybits h = refl
kind_of_name-kind_string ybool h = refl
kind_of_name-kind_string ydecimal64 h = refl
kind_of_name-kind_string yempty h = refl
kind_of_name-kind_string yenum h = refl
kind_of_name-kind_string yidentityref h = refl
kind_of_name-kind_string yinstance_identifier h = refl
kind_of_name-kind_string yleafref h = refl
kind_of_name-kind_string ystring h = refl
kind_of_name-kind_string yunion h = refl

-- Every entry of the one map stands in the other.
table_All : All (λ p. IsKnown p.1 × (kind_string p.1 ≡ p.0)) type_kind_from_name
unfolding type_kind_from_name kind_string
table_All = (
  (tt, refl),
  (
    (tt, refl),
    (
      (tt, refl),
      (
        (tt, refl),
        (
          (tt, refl),
          (
            (tt, refl),
            (
              (tt, refl),
              (
                (tt, refl),
                (
                  (tt, refl),
                  (
                    (tt, refl),
                    (
                      (tt, refl),
                      (
                        (tt, refl),
                        (
                          (tt, refl),
                          (
                            (tt, refl),
                            (
                              (tt, refl),
                              (
                                (tt, refl),
                                ((tt, refl), ((tt, refl), ((tt, refl), ((tt, refl), tt)))),
                              ),
                            ),
                          ),
                        ),
                      ),
                    ),
                  ),
                ),
              ),
            ),
          ),
        ),
      ),
    ),
  ),
)

-- A text names a kind exactly when it is that kind's print and the kind has a constant.
pub kind_of_name_iff :
    (s : Bytes) (k : TypeKind) → (kind_of_name s ≡ some k) ↔ (IsKnown k × (kind_string k ≡ s))
kind_of_name_iff s k = (
  unfold kind_of_name in
      lookup-All (λ t j. IsKnown j × (kind_string j ≡ t)) s type_kind_from_name table_All,
  λ h. subst (λ t. kind_of_name t ≡ some k) h.1 (kind_of_name-kind_string k h.0),
)
