-- ===== src/Server/Uuid/Format.antt =====
-- Generated identifiers have the format that is checked of received ones.
use teams_mirror.Prelude.{
  ℕ, zero, suc, ◌<◌, ◌≡◌, refl, ap, Bool, true, false, ◌&&◌, [], ◌∷◌, arith, ◌==◌, length, get_or,
  Bool-cases, inl, inr,
}
use teams_mirror.Bytes.{Bytes, view, NoNul}
use teams_mirror.Bytes.Buffer.{view-copy_fits}
use teams_mirror.Fields.{copy_buffer, zeroed}
use teams_mirror.Server.Uuid.{
  hex_digits, is_dash_position, uuid_chars, generate_uuid, is_xdigit, uuid_chars_valid,
  is_uuid_format_valid,
}

-- The engine's distribution gives numbers from 0 to 15.
abbrev pub DrawsDigits : (ℕ → ℕ) → Type 0
DrawsDigits draw = (n : ℕ) → draw n < 16

only_xdigits : Bytes → Bool
only_xdigits [] = true
only_xdigits (c ∷ cs) = is_xdigit c && only_xdigits cs

get_or-xdigit :
    (cs : Bytes) (d : ℕ) → only_xdigits cs ≡ true → d < length cs → is_xdigit (get_or cs d 0) ≡ true
unfolding only_xdigits
get_or-xdigit [] d h lt = absurd (ground arith)
get_or-xdigit (c ∷ cs) zero h lt = ground arith
get_or-xdigit (c ∷ cs) (suc d) h lt = get_or-xdigit cs d (ground arith) (omega arith)

hex-is_xdigit : (d : ℕ) → d < 16 → is_xdigit (get_or hex_digits d 0) ≡ true
unfolding only_xdigits is_xdigit
hex-is_xdigit d h = get_or-xdigit hex_digits d refl h

length-uuid_chars : (draw : ℕ → ℕ) (i k n : ℕ) → length (uuid_chars draw i k n).0 ≡ k
unfolding uuid_chars
length-uuid_chars draw i zero n = refl
length-uuid_chars draw i (suc k) n = ap suc (length-uuid_chars draw (suc i) k _)

chars_valid :
    (draw : ℕ → ℕ) (i k n : ℕ)
    → DrawsDigits draw
    → uuid_chars_valid i (uuid_chars draw i k n).0 ≡ true
unfolding uuid_chars uuid_chars_valid
chars_valid draw i zero n h = refl
chars_valid draw i (suc k) n h = elim (Bool-cases (is_dash_position i)) [
  | inl e ↦ rw e (chars_valid draw (suc i) k n h)
  | inr e ↦ rw (e, hex-is_xdigit (draw n) (h n)) (chars_valid draw (suc i) k (suc n) h)
]

valid_of_parts :
    (s : Bytes) → length s ≡ 36 → uuid_chars_valid 0 s ≡ true → is_uuid_format_valid s ≡ true
unfolding is_uuid_format_valid
valid_of_parts s h v = ground arith

-- generateUuid makes an identifier that isUuidFormatValid accepts, if the draws are hexadecimal digits.
pub generate_uuid-valid :
    (draw : ℕ → ℕ) (n : ℕ) → DrawsDigits draw → is_uuid_format_valid (generate_uuid draw n).0 ≡ true
generate_uuid-valid draw n h =
    unfold generate_uuid in
    valid_of_parts (uuid_chars draw 0 36 n).0 (length-uuid_chars draw 0 36 n)
      (chars_valid draw 0 36 n h)

xdigit-not_nul : (c : ℕ) → is_xdigit c ≡ true → (c == 0) ≡ false
unfolding is_xdigit
xdigit-not_nul c h = ground arith

valid_chars-NoNul : (i : ℕ) (s : Bytes) → uuid_chars_valid i s ≡ true → NoNul s
unfolding uuid_chars_valid
valid_chars-NoNul i [] h = tt
valid_chars-NoNul i (c ∷ s) h = elim (Bool-cases (is_dash_position i)) [
  | inl e ↦ (ground arith, valid_chars-NoNul (suc i) s (ground arith))
  | inr e ↦ (ground (arith, xdigit-not_nul c), valid_chars-NoNul (suc i) s (ground arith))
]

-- An identifier of the right format has 36 bytes and no NUL.
pub valid_parts : (s : Bytes) → is_uuid_format_valid s ≡ true → (length s ≡ 36) × NoNul s
unfolding is_uuid_format_valid
valid_parts s h = (ground arith, valid_chars-NoNul 0 s (ground arith))

-- So it is read back whole from the array of 37 bytes that it is stored in.
pub view-valid : (s : Bytes) → is_uuid_format_valid s ≡ true → view (copy_buffer (zeroed 37) s) ≡ s
unfolding copy_buffer
view-valid s h =
    view-copy_fits (zeroed 37) s (valid_parts s h).1 (omega (arith, (valid_parts s h).0))
