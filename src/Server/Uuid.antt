-- ===== src/Server/Uuid.antt =====
-- generateUuid, isUuidFormatValid and the search for an unused identifier
-- (server/commands/command_utils.cpp, create_command.cpp, login_command.cpp).
pub mod Format
pub mod Search
use teams_mirror.Prelude.{
  ℕ, zero, suc, ◌+◌, ◌-◌, Bool, true, false, not, ◌&&◌, ◌||◌, Option, none, some, List, [], ◌∷◌,
  if◌then◌else◌, ◌==◌, leb, length, get_or,
}
use teams_mirror.Bytes.{Bytes}
use teams_mirror.Protocol.Limits.{uuid_length}

-- "0123456789abcdef"
abbrev hex_digits : Bytes
hex_digits =
    b'0' ∷ b'1' ∷ b'2' ∷ b'3' ∷ b'4' ∷ b'5' ∷ b'6' ∷ b'7' ∷ b'8' ∷ b'9' ∷ b'a' ∷ b'b' ∷ b'c' ∷ b'd'
    ∷ b'e' ∷ b'f' ∷ []

unfoldable pub is_dash_position : ℕ → Bool
is_dash_position index = index == 8 || index == 13 || index == 18 || index == 23

-- The `count` characters from an index on, and the number of draws made in all.
unfoldable pub uuid_chars : (ℕ → ℕ) → ℕ → ℕ → ℕ → Bytes × ℕ
unfolding is_dash_position
uuid_chars draw index zero draws = ([], draws)
uuid_chars draw index (suc count) draws =
    let dash = is_dash_position index in
    let c = if dash then b'-' else get_or hex_digits (draw draws) 0 in
    let (rest, draws') = uuid_chars draw (suc index) count (if dash then draws else suc draws) in
    (c ∷ rest, draws')

unfoldable pub generate_uuid : (ℕ → ℕ) → ℕ → Bytes × ℕ
unfolding uuid_chars
generate_uuid draw draws = uuid_chars draw 0 36 draws

-- std::isxdigit in the C locale.
unfoldable pub is_xdigit : ℕ → Bool
is_xdigit c = (leb b'0' c && leb c b'9') || (leb b'a' c && leb c b'f') || (leb b'A' c && leb c b'F')

unfoldable pub uuid_chars_valid : ℕ → Bytes → Bool
unfolding is_dash_position is_xdigit
uuid_chars_valid index [] = true
uuid_chars_valid index (c ∷ cs) =
    (if is_dash_position index then c == b'-' else is_xdigit c) && uuid_chars_valid (suc index) cs

unfoldable pub is_uuid_format_valid : Bytes → Bool
unfolding uuid_chars_valid
is_uuid_format_valid uuid =
    if not (length uuid == uuid_length - 1) then false else uuid_chars_valid 0 uuid

-- `while (used(candidate)) candidate = generateUuid();` with a bound on the candidates: `none` where
-- they are all used.
unfoldable pub generate_unique : ℕ → (Bytes → Bool) → (ℕ → ℕ) → ℕ → Option (Bytes × ℕ)
unfolding generate_uuid
generate_unique zero used draw draws = none
generate_unique (suc attempts) used draw draws =
    let (candidate, draws') = generate_uuid draw draws in
    let again = generate_unique attempts used draw draws' in
    if used candidate then again else some (candidate, draws')
