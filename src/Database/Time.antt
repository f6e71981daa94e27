-- ===== src/Database/Time.antt =====
-- Times in the save files: std::to_string of a long long (server/database/save/save.cpp), and parseTimeValue of
-- server/database/load/load.cpp, which calls std::stoll.
pub mod Printed
use teams_mirror.Prelude.{
  ℕ, zero, suc, ◌+◌, ◌-◌, ◌*◌, ◌/◌, ◌%◌, ◌^◌, ◌==◌, Bool, true, false, ◌&&◌, ◌||◌, Option, none,
  some, List, [], ◌∷◌, ◌++◌, if◌then◌else◌, ltb, leb,
}
use teams_mirror.Prelude.Int.{ℤ, pos, negsuc}
use teams_mirror.Bytes.{Bytes}

-- The digits of a number, on fuel; a number has fewer digits than its successor's value.
unfoldable pub digits : ℕ → ℕ → Bytes
digits zero n = []
digits (suc fuel) n = elim (ltb n 10) [
  | true ↦ (b'0' + n) ∷ []
  | false ↦ digits fuel (n / 10) ++ (b'0' + n % 10) ∷ []
]

-- std::to_string
unfoldable pub to_string : ℤ → Bytes
unfolding digits
to_string (pos n) = digits (suc n) n
to_string (negsuc n) = b'-' ∷ digits (suc (suc n)) (suc n)

-- std::isspace in the C locale.
unfoldable pub is_space : ℕ → Bool
is_space c = c == 32 || (leb 9 c && leb c 13)

unfoldable pub skip_spaces : Bytes → Bytes
unfolding is_space
skip_spaces [] = []
skip_spaces (c ∷ s) = let rest = skip_spaces s in if is_space c then rest else c ∷ s

-- The digits up to the end; `none` where another character stands among them, as then not all is consumed.
unfoldable pub parse_digits : ℕ → Bytes → Option ℕ
parse_digits n [] = some n
parse_digits n (c ∷ s) =
    if leb b'0' c && leb c b'9' then parse_digits (n * 10 + (c - b'0')) s else none

-- At least one digit.
unfoldable pub parse_number : Bytes → Option ℕ
unfolding parse_digits
parse_number [] = none
parse_number (c ∷ s) = parse_digits 0 (c ∷ s)

-- A number that is a long long; std::stoll throws std::out_of_range for others.
unfoldable pub in_range : Bool → Option ℕ → Option ℤ
in_range negative none = none
in_range false (some n) = if ltb n (2 ^ 63) then some (pos n) else none
in_range true (some zero) = some (pos 0)
in_range true (some (suc n)) = if ltb n (2 ^ 63) then some (negsuc n) else none

unfoldable pub parse_signed : Bytes → Option ℤ
unfolding parse_number in_range
parse_signed [] = none
parse_signed (c ∷ s) =
    if c == b'-'
    then in_range true (parse_number s)
    else if c == b'+'
    then in_range false (parse_number s)
    else in_range false (parse_number (c ∷ s))

-- `none` where parseTimeValue returns false.
unfoldable pub parse_time_value : Bytes → Option ℤ
unfolding skip_spaces parse_signed
parse_time_value field = parse_signed (skip_spaces field)
