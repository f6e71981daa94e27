-- ===== src/Database/Text/Fields.antt =====
-- What splitEscapedLine (server/database/load/load.cpp) makes of the lines that joinEscapedFields
-- (server/database/save/save.cpp) joins.
use teams_mirror.Prelude.{
  ℕ, false, List, [], ◌∷◌, ◌++◌, ◌≡◌, refl, ◌∙◌, append_assoc, append-nil, ◌≢◌, arith,
}
use teams_mirror.Bytes.{Bytes}
use teams_mirror.Database.Text.{
  backslash, line_feed, escape_character, escape_field, join_others, join_escaped_fields,
  unescape_character, split_from, split_escaped_line,
}

-- A delimiter that is no line feed and not among the characters of the escapes.
unfoldable pub IsDelimiter : ℕ → Type 0
IsDelimiter d = (d ≢ backslash) × (d ≢ b'n') × (d ≢ b'r') × (d ≢ line_feed)

split_from-escape_character :
    (d : ℕ)
    → IsDelimiter d
    → (fields : List Bytes) (current : Bytes) (c : ℕ) (rest : Bytes)
    → split_from d fields current false (escape_character d c ++ rest)
      ≡ split_from d fields (current ++ c ∷ []) false rest
unfolding split_from escape_character unescape_character IsDelimiter
split_from-escape_character d ok fields current c rest = ground arith

split_from-escape_field :
    (d : ℕ)
    → IsDelimiter d
    → (fields : List Bytes) (current value rest : Bytes)
    → split_from d fields current false (escape_field d value ++ rest)
      ≡ split_from d fields (current ++ value) false rest
unfolding escape_field
split_from-escape_field d ok fields current [] rest = rw append-nil refl
split_from-escape_field d ok fields current (c ∷ value) rest = rw append_assoc (
    split_from-escape_character d ok fields current c _
    ∙ split_from-escape_field d ok fields (current ++ c ∷ []) value rest
    ∙ rw append_assoc refl)

split_from_delimiter :
    (d : ℕ)
    → IsDelimiter d
    → (fields : List Bytes) (current rest : Bytes)
    → split_from d fields current false (d ∷ rest)
      ≡ split_from d (fields ++ current ∷ []) [] false rest
unfolding split_from IsDelimiter
split_from_delimiter d ok fields current rest = ground arith

split_from-join_others :
    (d : ℕ)
    → IsDelimiter d
    → (fields : List Bytes) (current : Bytes) (others : List Bytes)
    → split_from d fields current false (join_others d others) ≡ fields ++ current ∷ others
unfolding join_others
split_from-join_others d ok fields current [] = unfold split_from in refl
split_from-join_others d ok fields current (value ∷ others) =
    split_from_delimiter d ok fields current _
    ∙ split_from-escape_field d ok (fields ++ current ∷ []) [] value (join_others d others)
    ∙ split_from-join_others d ok (fields ++ current ∷ []) value others
    ∙ append_assoc fields (current ∷ []) (value ∷ others)

-- A line of at least one field is split into the fields that it was joined from, whatever characters they
-- hold, if the delimiter is no backslash, no line feed and not the letter n or r.
pub split_escaped_line-join_escaped_fields :
    (d : ℕ)
    → IsDelimiter d
    → (field : Bytes) (fields : List Bytes)
    → split_escaped_line d (join_escaped_fields d (field ∷ fields)) ≡ field ∷ fields
unfolding split_escaped_line join_escaped_fields
split_escaped_line-join_escaped_fields d ok field fields =
    split_from-escape_field d ok [] [] field (join_others d fields)
    ∙ split_from-join_others d ok [] field fields
