-- ===== src/Base/Strings/Trim.antt =====
-- `TrimSpace` leaves a text with no white space alone.
use mathlib.Core.List.{reverse, reverse-cons, reverse-reverse}
use goyang.Base.{ℕ, ◌≡◌, refl, ap, ◌∙◌, false, [], ◌∷◌, Bytes, All, All-append}
use goyang.Base.Strings.{is_space, trim_left, trim_space}

abbrev pub IsInk : ℕ → Type 0
IsInk c = is_space c ≡ false

trim_left-IsInk : (s : Bytes) → All IsInk s → trim_left s ≡ s
unfolding trim_left
trim_left-IsInk [] h = refl
trim_left-IsInk (c ∷ s) h = rw h.0

reverse-IsInk : (s : Bytes) → All IsInk s → All IsInk (reverse s)
reverse-IsInk [] h = tt
reverse-IsInk (c ∷ s) h =
    rw reverse-cons (All-append IsInk (reverse s) (c ∷ []) (reverse-IsInk s h.1) (h.0, tt))

pub trim_space-IsInk : (s : Bytes) → All IsInk s → trim_space s ≡ s
unfolding trim_space
trim_space-IsInk s h =
    rw (trim_left-IsInk s h)
      (ap reverse (trim_left-IsInk (reverse s) (reverse-IsInk s h)) ∙ reverse-reverse s)
