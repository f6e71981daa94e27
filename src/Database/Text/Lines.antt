-- ===== src/Database/Text/Lines.antt =====
-- What readTextFile (server/database/load/load.cpp) reads of the text that writeLines
-- (server/database/save/save.cpp) writes.
use teams_mirror.Prelude.{
  ℕ, ◌==◌, Bool, false, ◌||◌, List, [], ◌∷◌, ◌++◌, ◌≡◌, refl, append_assoc, append-nil, ◌≢◌, arith,
  All,
}
use teams_mirror.Bytes.{Bytes}
use teams_mirror.Database.Text.{
  line_feed, escape_character, escape_field, join_others, join_escaped_fields, write_lines,
  read_lines_from, read_lines,
}

-- Whether there is a line feed.
unfoldable pub has_line_feed : Bytes → Bool
has_line_feed [] = false
has_line_feed (c ∷ s) = c == line_feed || has_line_feed s

abbrev pub IsLine : Bytes → Type 0
IsLine s = has_line_feed s ≡ false

append-IsLine : (s t : Bytes) → IsLine s → IsLine t → IsLine (s ++ t)
unfolding has_line_feed
append-IsLine [] t a b = b
append-IsLine (c ∷ s) t a b = ground (arith, append-IsLine s t)

escape_character-IsLine : (d c : ℕ) → d ≢ line_feed → IsLine (escape_character d c)
unfolding has_line_feed escape_character
escape_character-IsLine d c ok = ground arith

escape_field-IsLine : (d : ℕ) (value : Bytes) → d ≢ line_feed → IsLine (escape_field d value)
unfolding escape_field has_line_feed
escape_field-IsLine d [] ok = refl
escape_field-IsLine d (c ∷ value) ok =
    append-IsLine (escape_character d c) (escape_field d value) (escape_character-IsLine d c ok)
      (escape_field-IsLine d value ok)

join_others-IsLine : (d : ℕ) (fields : List Bytes) → d ≢ line_feed → IsLine (join_others d fields)
unfolding join_others has_line_feed
join_others-IsLine d [] ok = refl
join_others-IsLine d (field ∷ fields) ok = ground (
  arith,
  append-IsLine (escape_field d field) (join_others d fields) (escape_field-IsLine d field ok)
      (join_others-IsLine d fields ok),
)

-- A joined line has no line feed, whatever its fields hold, if the delimiter is none.
pub join_escaped_fields-IsLine :
    (d : ℕ) (fields : List Bytes) → d ≢ line_feed → IsLine (join_escaped_fields d fields)
unfolding join_escaped_fields has_line_feed
join_escaped_fields-IsLine d [] ok = refl
join_escaped_fields-IsLine d (field ∷ fields) ok =
    append-IsLine (escape_field d field) (join_others d fields) (escape_field-IsLine d field ok)
      (join_others-IsLine d fields ok)

read_lines_from-line :
    (current line text : Bytes)
    → IsLine line
    → read_lines_from current (line ++ line_feed ∷ text)
      ≡ (current ++ line) ∷ read_lines_from [] text
unfolding read_lines_from has_line_feed
read_lines_from-line current [] text h = rw append-nil refl
read_lines_from-line current (c ∷ line) text h =
    ground (
      arith,
      read_lines_from-line (current ++ c ∷ []) line text,
      append_assoc current (c ∷ []) line,
    )

-- Lines without a line feed are read back as they were written, empty ones too.
pub read_lines-write_lines :
    (lines : List Bytes) → All IsLine lines → read_lines (write_lines lines) ≡ lines
unfolding read_lines write_lines
read_lines-write_lines [] h = unfold read_lines_from in refl
read_lines-write_lines (line ∷ lines) h = rw append_assoc (
    rw (read_lines_from-line [] line (write_lines lines) h.0, read_lines-write_lines lines h.1)
      refl)
