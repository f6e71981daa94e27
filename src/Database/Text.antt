-- ===== src/Database/Text.antt =====
-- The lines of the save files: fields that are escaped and joined by a delimiter (escapeField and
-- joinEscapedFields of server/database/save/save.cpp, splitEscapedLine of server/database/load/load.cpp), and
-- the text of a file (writeLines, readTextFile).
pub mod Fields
pub mod Lines
use teams_mirror.Prelude.{
  ℕ, ◌==◌, Bool, true, false, ◌||◌, List, [], ◌∷◌, ◌++◌, if◌then◌else◌, is_empty,
}
use teams_mirror.Bytes.{Bytes}

abbrev pub backslash : ℕ
backslash = b'\\'

abbrev pub line_feed : ℕ
line_feed = 10

abbrev pub carriage_return : ℕ
carriage_return = 13

-- What one character is written as.
unfoldable pub escape_character : ℕ → ℕ → Bytes
escape_character delimiter c =
    if c == backslash || c == delimiter
    then backslash ∷ c ∷ []
    else if c == line_feed
    then backslash ∷ b'n' ∷ []
    else if c == carriage_return
    then backslash ∷ b'r' ∷ []
    else c ∷ []

unfoldable pub escape_field : ℕ → Bytes → Bytes
unfolding escape_character
escape_field delimiter [] = []
escape_field delimiter (c ∷ value) = escape_character delimiter c ++ escape_field delimiter value

-- The fields behind the first one.
unfoldable pub join_others : ℕ → List Bytes → Bytes
unfolding escape_field
join_others delimiter [] = []
join_others delimiter (field ∷ fields) =
    delimiter ∷ (escape_field delimiter field ++ join_others delimiter fields)

unfoldable pub join_escaped_fields : ℕ → List Bytes → Bytes
unfolding join_others
join_escaped_fields delimiter [] = []
join_escaped_fields delimiter (field ∷ fields) =
    escape_field delimiter field ++ join_others delimiter fields

-- The character that an escaped one stands for.
unfoldable pub unescape_character : ℕ → ℕ
unescape_character c = if c == b'n' then line_feed else if c == b'r' then carriage_return else c

-- The loop of splitEscapedLine, and what is done behind it.
unfoldable pub split_from : ℕ → List Bytes → Bytes → Bool → Bytes → List Bytes
unfolding unescape_character
split_from delimiter fields current escaping [] =
    fields ++ (if escaping then current ++ backslash ∷ [] else current) ∷ []
split_from delimiter fields current true (c ∷ line) =
    split_from delimiter fields (current ++ unescape_character c ∷ []) false line
split_from delimiter fields current false (c ∷ line) = elim (c == backslash) [
  | true ↦ split_from delimiter fields current true line
  | false ↦ elim (c == delimiter) [
    | true ↦ split_from delimiter (fields ++ current ∷ []) [] false line
    | false ↦ split_from delimiter fields (current ++ c ∷ []) false line
  ]
]

unfoldable pub split_escaped_line : ℕ → Bytes → List Bytes
unfolding split_from
split_escaped_line delimiter line = split_from delimiter [] [] false line

-- The text that the loop of writeLines writes.
unfoldable pub write_lines : List Bytes → Bytes
write_lines [] = []
write_lines (line ∷ lines) = (line ++ line_feed ∷ []) ++ write_lines lines

-- The loop of readTextFile; std::getline takes the characters up to a line feed, or to the end of the file if
-- there are any.
unfoldable pub read_lines_from : Bytes → Bytes → List Bytes
read_lines_from line [] = if is_empty line then [] else line ∷ []
read_lines_from line (c ∷ text) = elim (c == line_feed) [
  | true ↦ line ∷ read_lines_from [] text
  | false ↦ read_lines_from (line ++ c ∷ []) text
]

unfoldable pub read_lines : Bytes → List Bytes
unfolding read_lines_from
read_lines text = read_lines_from [] text
