-- ===== src/Tests/Names.antt =====
-- Runs of the conversions of names and of the indentation, and instances of their theorems.
use goyang.Base.{ℕ, ◌+◌, ◌≡◌, ◌||◌, refl, true, false, Bool, Bytes, codes, [], ◌∷◌, ◌++◌, ◌==◌}
use goyang.CamelCase.{camel_case, camel_case_to_dash}
use goyang.Indent.{lines_of, string, actual_written_size, pieces, Iw, iw_write}
use goyang.Indent.Lines.{indented, string-indented}
use goyang.Indent.Sizes.{taken, actual_written_size_lem}
use goyang.Indent.Chunks.{buffer, after, write_append}

camel : camel_case (codes "_my_field-name_2") [] ≡ codes "XMyFieldName_2"
unfolding camel_case goyang.Base.text_eq
camel = refl

dash : camel_case_to_dash (codes "MyName_2") [] ≡ codes "my-name-2"
unfolding camel_case_to_dash
dash = refl

indent : string (codes "--") (codes "a\nb\n") ≡ codes "--a\n--b\n"
unfolding string
indent = refl

-- In the middle of a line no prefix is written, but one is taken off the three bytes.
short_write : actual_written_size 3 2 (pieces true (codes "abc")) ≡ 1
unfolding actual_written_size pieces
short_write = refl

string-indented_example :
    string (codes "--") (codes "a\nb") ≡ indented (codes "--") true (codes "a\nb")
string-indented_example = string-indented (codes "--") (codes "a\nb")

abbrev writer : Iw Bytes
writer = record { w = []; prefix = codes "> "; partial = false }

write_append_example :
    after (iw_write buffer writer (codes "a\nb" ++ codes "c\n"))
    ≡ after (iw_write buffer (after (iw_write buffer writer (codes "a\nb"))) (codes "c\n"))
write_append_example = write_append writer (codes "a\nb") (codes "c\n")

-- Three bytes of "> abc" are written: two of the prefix and one of the text.
actual_written_size_lem_example :
    actual_written_size 3 2 ([] ∷ lines_of (codes "abc")) ≡ taken 2 3 true (codes "abc")
actual_written_size_lem_example = actual_written_size_lem 3 2 (codes "abc")
