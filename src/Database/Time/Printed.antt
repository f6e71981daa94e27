-- ===== src/Database/Time/Printed.antt =====
-- What parseTimeValue (server/database/load/load.cpp) makes of a printed time.
use teams_mirror.Prelude.{
  ℕ, zero, suc, ◌+◌, ◌/◌, ◌%◌, ◌^◌, ◌<◌, ◌≤◌, subst, Bool, true, false, Option, none, some, [], ◌∷◌,
  ◌++◌, ◌≡◌, refl, ◌∙◌, sym, ap, arith, append_assoc, append-nil, if◌then◌else◌, ltb, Bool-cases,
  inl, inr, ltb→lt, some_inj, some_ne_none,
}
use teams_mirror.Prelude.Int.{ℤ, pos, negsuc}
use teams_mirror.Bytes.{Bytes}
use teams_mirror.Database.Time.{
  digits, to_string, is_space, skip_spaces, parse_digits, parse_number, in_range, parse_signed,
  parse_time_value,
}

-- A time that fits in a long long.
unfoldable pub IsLongLong : ℤ → Type 0
IsLongLong (pos n) = n < 2 ^ 63
IsLongLong (negsuc n) = n < 2 ^ 63

digits_last : (fuel n : ℕ) → ltb n 10 ≡ true → digits (suc fuel) n ≡ (b'0' + n) ∷ []
unfolding digits
digits_last fuel n h = ground arith

digits_more :
    (fuel n : ℕ)
    → ltb n 10 ≡ false
    → digits (suc fuel) n ≡ digits fuel (n / 10) ++ (b'0' + n % 10) ∷ []
unfolding digits
digits_more fuel n h = ground arith

parse_digits-digits :
    (fuel n : ℕ) (rest : Bytes)
    → n < fuel
    → parse_digits 0 (digits fuel n ++ rest) ≡ parse_digits n rest
unfolding parse_digits
parse_digits-digits zero n rest h = absurd (omega (arith, h))
parse_digits-digits (suc fuel) n rest h = elim (Bool-cases (ltb n 10)) [
  | inl small ↦ rw (digits_last fuel n small) (ground arith)
  | inr large ↦
      rw (digits_more fuel n large, append_assoc)
        (parse_digits-digits fuel (n / 10) ((b'0' + n % 10) ∷ rest) (ground arith) ∙ ground arith)
]

-- A printed number starts with a digit.
digits_first :
    (fuel n : ℕ) (rest : Bytes)
    → (c : ℕ) × (s : Bytes) × (digits (suc fuel) n ++ rest ≡ c ∷ s) × (b'0' ≤ c) × (c ≤ b'9')
digits_first zero n rest = elim (Bool-cases (ltb n 10)) [
  | inl small ↦ (b'0' + n, rest, rw (digits_last zero n small) refl, ground arith, ground arith)
  | inr large ↦ (
    b'0' + n % 10,
    rest,
    rw (digits_more zero n large) (unfold digits in refl),
    ground arith,
    ground arith,
  )
]
digits_first (suc fuel) n rest = elim (Bool-cases (ltb n 10)) [
  | inl small ↦
      (b'0' + n, rest, rw (digits_last (suc fuel) n small) refl, ground arith, ground arith)
  | inr large ↦
      let (c, s, e, low, high) = digits_first fuel (n / 10) ((b'0' + n % 10) ∷ rest) in
      (c, s, rw (digits_more (suc fuel) n large, append_assoc) e, low, high)
]

printed_first :
    (fuel n : ℕ) → (c : ℕ) × (s : Bytes) × (digits (suc fuel) n ≡ c ∷ s) × (b'0' ≤ c) × (c ≤ b'9')
printed_first fuel n =
    let (c, s, e, low, high) = digits_first fuel n [] in
    (c, s, subst (λ t. t ≡ c ∷ s) (append-nil (digits (suc fuel) n)) e, low, high)

parse_digits-printed : (fuel n : ℕ) → n < fuel → parse_digits 0 (digits fuel n) ≡ some n
parse_digits-printed fuel n h =
    subst (λ s. parse_digits 0 s ≡ some n) (append-nil (digits fuel n))
      (parse_digits-digits fuel n [] h ∙ unfold parse_digits in refl)

-- A printed number has a first digit, and is read back.
pub parse_number-printed :
    (n : ℕ) → (c : ℕ) × (s : Bytes) × (to_string (pos n) ≡ c ∷ s) × (parse_number (c ∷ s) ≡ some n)
unfolding to_string parse_number
parse_number-printed n =
    let (c, s, e, low, high) = printed_first n n in
    (c, s, e, ap (parse_digits 0) (sym e) ∙ parse_digits-printed (suc n) n (omega arith))

parse_time_value-digit :
    (c : ℕ) (s : Bytes)
    → b'0' ≤ c
    → c ≤ b'9'
    → parse_time_value (c ∷ s) ≡ in_range false (parse_digits 0 (c ∷ s))
unfolding parse_time_value skip_spaces is_space parse_signed parse_number
parse_time_value-digit c s low high = ground arith

parse_time_value-minus :
    (c : ℕ) (s : Bytes) → parse_time_value (b'-' ∷ c ∷ s) ≡ in_range true (parse_digits 0 (c ∷ s))
unfolding parse_time_value skip_spaces is_space parse_signed parse_number
parse_time_value-minus c s = refl

parse_time_value-digits :
    (fuel n : ℕ)
    → parse_time_value (digits (suc fuel) n) ≡ in_range false (parse_digits 0 (digits (suc fuel) n))
parse_time_value-digits fuel n =
    let (c, s, e, low, high) = printed_first fuel n in rw e (parse_time_value-digit c s low high)

parse_time_value-minus-digits :
    (fuel n : ℕ)
    → parse_time_value (b'-' ∷ digits (suc fuel) n)
      ≡ in_range true (parse_digits 0 (digits (suc fuel) n))
parse_time_value-minus-digits fuel n =
    let (c, s, e, low, high) = printed_first fuel n in rw e (parse_time_value-minus c s)

-- Every time that fits in a long long is read back from its print.
pub parse_time_value-to_string : (t : ℤ) → IsLongLong t → parse_time_value (to_string t) ≡ some t
unfolding to_string in_range IsLongLong
parse_time_value-to_string (pos n) h =
    parse_time_value-digits n n
    ∙ rw (parse_digits-printed (suc n) n (omega arith)) (ground (arith, h))
parse_time_value-to_string (negsuc n) h =
    parse_time_value-minus-digits (suc n) (suc n)
    ∙ rw (parse_digits-printed (suc (suc n)) (suc n) (omega arith)) (ground (arith, h))

if_some : (b : Bool) (u t : ℤ) → (if b then some u else none) ≡ some t → (b ≡ true) × (u ≡ t)
if_some true u t h = (refl, some_inj h)
if_some false u t h = absurd (some_ne_none t h)

in_range-IsLongLong :
    (negative : Bool) (o : Option ℕ) (t : ℤ) → in_range negative o ≡ some t → IsLongLong t
unfolding in_range IsLongLong
in_range-IsLongLong negative none t h = absurd (some_ne_none t h)
in_range-IsLongLong false (some n) t h =
    let (small, same) = if_some (ltb n (2 ^ 63)) (pos n) t h in
    subst IsLongLong same (ltb→lt _ _ small)
in_range-IsLongLong true (some zero) t h = subst IsLongLong (some_inj h) (omega arith)
in_range-IsLongLong true (some (suc n)) t h =
    let (small, same) = if_some (ltb n (2 ^ 63)) (negsuc n) t h in
    subst IsLongLong same (ltb→lt _ _ small)

parse_signed-IsLongLong : (s : Bytes) (t : ℤ) → parse_signed s ≡ some t → IsLongLong t
unfolding parse_signed
parse_signed-IsLongLong [] t h = absurd (some_ne_none t h)
parse_signed-IsLongLong (c ∷ s) t h = ground (
  arith,
  h,
  in_range-IsLongLong true (parse_number s) t,
  in_range-IsLongLong false (parse_number s) t,
  in_range-IsLongLong false (parse_number (c ∷ s)) t,
)

-- A time that parseTimeValue accepts fits in a long long.
pub parse_time_value-IsLongLong : (s : Bytes) (t : ℤ) → parse_time_value s ≡ some t → IsLongLong t
unfolding parse_time_value
parse_time_value-IsLongLong s t h = parse_signed-IsLongLong (skip_spaces s) t h
