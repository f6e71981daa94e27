-- ===== src/Database/Records.antt =====
-- The lines of a save file as records: parseRecord and parseBoolValue of server/database/load/load.cpp,
-- RecordFormat of load.hpp, and the loop that each of the load functions has.
pub mod Stored
pub mod Nested
use teams_mirror.Prelude.{
  ℕ, ◌==◌, Bool, true, not, ◌&&◌, ◌||◌, Option, none, some, List, [], ◌∷◌, if◌then◌else◌, length,
  get_or, is_empty, same, bytes_eq,
}
use teams_mirror.Bytes.{Bytes}
use teams_mirror.Database.Text.{split_escaped_line}

pub record RecordFormat : Type 0 where
  pub delimiter : ℕ
  pub expected_field_count : ℕ
  pub require_first_field : Bool
  pub require_second_field : Bool

-- fields.at(i)
abbrev pub field : List Bytes → ℕ → Bytes
field fields i = get_or fields i []

unfoldable pub parse_bool_value : Bytes → Bool
unfolding same
parse_bool_value s =
    same s (b'1' ∷ [])
    || same s (b't' ∷ b'r' ∷ b'u' ∷ b'e' ∷ [])
    || same s (b'T' ∷ b'R' ∷ b'U' ∷ b'E' ∷ [])
    || same s (b'T' ∷ b'r' ∷ b'u' ∷ b'e' ∷ [])

unfoldable pub parse_record : RecordFormat → Bytes → Option (List Bytes)
parse_record format line =
    let fields = split_escaped_line format.delimiter line in
    if not (length fields == format.expected_field_count)
    then none
    else if format.require_first_field && is_empty (field fields 0)
    then none
    else if format.require_second_field && is_empty (field fields 1)
    then none
    else some fields

-- What is done for a line: an empty one, and one that parseRecord refuses, is skipped.
unfoldable pub take_line {ℓ} : {S : Type ℓ} → RecordFormat → (List Bytes → S → S) → Bytes → S → S
unfolding parse_record
take_line format body line s =
    if is_empty line
    then s
    else elim (parse_record format line) [ none ↦ s | some fields ↦ body fields s ]

-- The loop over the lines of a file.
unfoldable pub each_record {ℓ} :
    {S : Type ℓ} → RecordFormat → (List Bytes → S → S) → List Bytes → S → S
unfolding take_line
each_record format body [] s = s
each_record format body (line ∷ lines) s =
    each_record format body lines (take_line format body line s)

-- The format of a file whose first two fields may not be empty.
abbrev pub two_keys : ℕ → ℕ → RecordFormat
two_keys d count = record {
  delimiter = d;
  expected_field_count = count;
  require_first_field = true;
  require_second_field = true;
}
