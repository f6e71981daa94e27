-- ===== src/Bytes.antt =====
-- Byte strings, and the fixed `char` arrays of the models and payloads
-- (server/commands/command_utils.hpp, command_utils.cpp). A byte is a number below 256; an array
-- `char x[N]` is the list of its N bytes.
pub mod Buffer
use teams_mirror.Prelude.{
  ℕ, ◌+◌, ◌-◌, ◌≡◌, Bool, true, false, Option, none, some, List, [], ◌∷◌, ◌++◌, if◌then◌else◌, ◌==◌,
  ltb, length, take, drop,
}

abbrev pub Bytes : Type 0
Bytes = List ℕ

-- std::string_view over a `char` array: the bytes before the first NUL.
unfoldable pub view : Bytes → Bytes
view [] = []
view (c ∷ cs) = if c == 0 then [] else c ∷ view cs

-- The length that fits beside the terminator.
abbrev pub copied_length : Bytes → Bytes → ℕ
copied_length destination source =
    if ltb (length source) (length destination - 1) then length source else length destination - 1

-- copyPaddedString: the bytes behind the terminator stay as they were.
unfoldable pub copy_padded_string : Bytes → Bytes → Bytes
copy_padded_string destination source =
    let n = copied_length destination source in take n source ++ (0 ∷ drop (n + 1) destination)

-- extractFixedString over a string_view: `none` where it returns false.
unfoldable pub extract_fixed_string : Bytes → Option Bytes
extract_fixed_string [] = none
extract_fixed_string (c ∷ cs) =
    let rest = extract_fixed_string cs in
    if c == 0 then some [] else elim rest [ none ↦ none | some s ↦ some (c ∷ s) ]

-- No byte is NUL.
abbrev pub NoNul : Bytes → Type 0
NoNul [] = Unit {0}
NoNul (c ∷ cs) = ((c == 0) ≡ false) × NoNul cs

-- Some byte is NUL.
abbrev pub IsTerminated : Bytes → Type 0
IsTerminated [] = ⊥
IsTerminated (c ∷ cs) = if c == 0 then Unit {0} else IsTerminated cs
