-- ===== src/Indent/Chunks.antt =====
-- How calls of `Write` of pkg/indent/indent.go follow one another.
use mathlib.Core.List.{append_assoc, append-nil}
use goyang.Base.{
  ℕ, ◌≡◌, ◌∙◌, sym, ap, refl, Bool, true, false, not, [], ◌∷◌, ◌++◌, Option, none, Bytes, length,
  ◌==◌,
}
use goyang.Indent.{join, pieces, ends_open, Iw, write_bytes, iw_write}
use goyang.Indent.Lines.{indented, sent-indented}

-- A `bytes.Buffer`: it takes what is written and never fails.
abbrev pub buffer : Bytes → Bytes → ℕ × Option ℕ × Bytes
buffer w s = (length s, none, w ++ s)

-- The writer behind a call.
abbrev pub after : ℕ × Option ℕ × Iw Bytes → Iw Bytes
after r = r.2

open_after : Bool → Bytes → Bool
open_after t [] = t
open_after t (c ∷ s) = ends_open (c ∷ s)

ends_open-append : (a : Bytes) (c : ℕ) (s : Bytes) → ends_open (a ++ c ∷ s) ≡ ends_open (c ∷ s)
unfolding ends_open
ends_open-append [] c s = refl
ends_open-append (d ∷ []) c s = refl
ends_open-append (d ∷ e ∷ a) c s = ends_open-append (e ∷ a) c s

ends_open_tail :
    (p : Bytes) (t : Bool) (c : ℕ) (s : Bytes) → ends_open (c ∷ indented p t s) ≡ ends_open (c ∷ s)
unfolding indented ends_open
ends_open_tail p t c [] = refl
ends_open_tail p true c (d ∷ s) =
    ends_open-append (c ∷ p) d (indented p (d == b'\n') s) ∙ ends_open_tail p (d == b'\n') d s
ends_open_tail p false c (d ∷ s) = ends_open_tail p (d == b'\n') d s

ends_open-indented :
    (p : Bytes) (t : Bool) (c : ℕ) (s : Bytes)
    → ends_open (indented p t (c ∷ s)) ≡ ends_open (c ∷ s)
unfolding indented
ends_open-indented p true c s =
    ends_open-append p c (indented p (c == b'\n') s) ∙ ends_open_tail p (c == b'\n') c s
ends_open-indented p false c s = ends_open_tail p (c == b'\n') c s

-- Whether a line begins behind the text.
fresh_after : Bool → Bytes → Bool
fresh_after t [] = t
fresh_after t (c ∷ s) = fresh_after (c == b'\n') s

indented-append :
    (p : Bytes) (t : Bool) (a b : Bytes)
    → indented p t (a ++ b) ≡ indented p t a ++ indented p (fresh_after t a) b
unfolding indented fresh_after
indented-append p t [] b = refl
indented-append p true (c ∷ a) b = rw (
  indented-append p (c == b'\n') a b,
  append_assoc p (c ∷ indented p (c == b'\n') a) (indented p (fresh_after (c == b'\n') a) b),
)
indented-append p false (c ∷ a) b = rw (indented-append p (c == b'\n') a b)

not-not : (t : Bool) → not (not t) ≡ t
not-not true = refl
not-not false = refl

fresh_after-open : (t : Bool) (a : Bytes) → fresh_after (not t) a ≡ not (open_after t a)
unfolding fresh_after open_after ends_open
fresh_after-open t [] = refl
fresh_after-open t (c ∷ []) = rw (not-not (c == b'\n'))
fresh_after-open t (c ∷ d ∷ s) = fresh_after-open t (d ∷ s)

open_after-append : (t : Bool) (a b : Bytes) → open_after t (a ++ b) ≡ open_after (open_after t a) b
unfolding open_after
open_after-append t [] b = refl
open_after-append t (c ∷ a) [] = rw (append-nil a)
open_after-append t (c ∷ a) (d ∷ b) = ends_open-append (c ∷ a) d b

-- The writer behind a call on a buffer.
behind : Iw Bytes → Bytes → Iw Bytes
behind i s = record {
  w = i.w ++ indented i.prefix (not i.partial) s;
  prefix = i.prefix;
  partial = open_after i.partial s;
}

write_nil : (i : Iw Bytes) → i ≡ behind i []
unfolding behind open_after indented
write_nil i = rw (append-nil i.w)

behind-append : (i : Iw Bytes) (a b : Bytes) → behind i (a ++ b) ≡ behind (behind i a) b
unfolding behind
behind-append i a b = rw (
  indented-append i.prefix (not i.partial) a b,
  fresh_after-open i.partial a,
  open_after-append i.partial a b,
  append_assoc i.w (indented i.prefix (not i.partial) a)
      (indented i.prefix (not (open_after i.partial a)) b),
)

after_write : (i : Iw Bytes) (s : Bytes) → after (iw_write buffer i s) ≡ behind i s
unfolding iw_write write_bytes behind open_after
after_write i [] = write_nil i
after_write i (c ∷ s) =
    let e : join (pieces i.partial (c ∷ s)) i.prefix ≡ indented i.prefix (not i.partial) (c ∷ s) =
      sent-indented i.prefix i.partial (c ∷ s) in
    rw (e, ends_open-indented i.prefix (not i.partial) c s)

-- On a buffer, a call of `Write` on two texts together leaves the writer as two calls do, one on each.
pub write_append :
    (i : Iw Bytes) (a b : Bytes)
    → after (iw_write buffer i (a ++ b)) ≡ after (iw_write buffer (after (iw_write buffer i a)) b)
write_append i a b =
    after_write i (a ++ b)
    ∙ behind-append i a b
    ∙ sym (after_write (behind i a) b)
    ∙ ap (λ z. after (iw_write buffer z b)) (sym (after_write i a))
