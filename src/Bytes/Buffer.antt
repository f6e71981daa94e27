-- ===== src/Bytes/Buffer.antt =====
-- Writing a string into a fixed array and reading it back.
use teams_mirror.Prelude.{
  ℕ, zero, suc, ◌+◌, ◌-◌, ◌<◌, ◌≡◌, refl, ap, ◌∙◌, true, none, some, [], ◌∷◌, ◌++◌, arith, ◌==◌,
  ltb, length, take, drop, length-append, length-take, length-drop, take_all, inl, inr, Bool-cases,
  Option-cases, tests,
}
use teams_mirror.Bytes.{Bytes, view, copy_padded_string, extract_fixed_string, NoNul}

pub view-NoNul : (b : Bytes) → NoNul (view b)
unfolding view
view-NoNul [] = tt
view-NoNul (c ∷ cs) = elim (Bool-cases (c == 0)) [
  | inl e ↦ rw e tt
  | inr e ↦ rw e (e, view-NoNul cs)
]

-- Of a string with a terminator behind it, the view is the string.
pub view-append : (s b : Bytes) → NoNul s → view (s ++ (0 ∷ b)) ≡ s
unfolding view
view-append [] b h = refl
view-append (c ∷ s) b (h, hs) = rw h (ap (◌∷◌ c) (view-append s b hs))

pub NoNul-take : (n : ℕ) (s : Bytes) → NoNul s → NoNul (take n s)
NoNul-take zero s h = tt
NoNul-take (suc n) [] h = tt
NoNul-take (suc n) (c ∷ s) (h, hs) = (h, NoNul-take n s hs)

pub view-copy : (d s : Bytes) → NoNul s → view (copy_padded_string d s) ≡ take (length d - 1) s
unfolding copy_padded_string
view-copy d s h = elim (Bool-cases (ltb (length s) (length d - 1))) [
  | inl e ↦ rw e (view-append (take (length s) s) _ (NoNul-take (length s) s h) ∙ same_cut e)
  | inr e ↦ rw e (view-append (take (length d - 1) s) _ (NoNul-take (length d - 1) s h))
]
  where
    same_cut : ltb (length s) (length d - 1) ≡ true → take (length s) s ≡ take (length d - 1) s
    same_cut e =
        rw (take_all (length s) s (omega arith), take_all (length d - 1) s (omega (tests, e))) refl

pub length-copy : (d s : Bytes) → 0 < length d → length (copy_padded_string d s) ≡ length d
unfolding copy_padded_string
length-copy d s h = elim (Bool-cases (ltb (length s) (length d - 1))) [
  | inl e ↦
      rw (e, length-append (take (length s) s) (0 ∷ drop (length s + 1) d))
        (omega (tests, e, length-take (length s) s, length-drop (length s + 1) d))
  | inr e ↦
      rw (e, length-append (take (length d - 1) s) (0 ∷ drop (length d - 1 + 1) d))
        (omega (tests, e, length-take (length d - 1) s, length-drop (length d - 1 + 1) d))
]

-- A string with no NUL that is shorter than the array is read back whole by the view.
pub view-copy_fits :
    (d s : Bytes) → NoNul s → length s < length d → view (copy_padded_string d s) ≡ s
view-copy_fits d s h fits = view-copy d s h ∙ take_all (length d - 1) s (omega arith)

-- extractFixedString succeeds exactly on an array with a NUL, and then gives its view.
pub extract-append : (s b : Bytes) → NoNul s → extract_fixed_string (s ++ (0 ∷ b)) ≡ some s
unfolding extract_fixed_string
extract-append [] b h = refl
extract-append (c ∷ s) b (h, hs) = rw (h, extract-append s b hs)

pub extract-NoNul : (b : Bytes) → NoNul b → extract_fixed_string b ≡ none
unfolding extract_fixed_string
extract-NoNul [] h = refl
extract-NoNul (c ∷ b) (h, hb) = rw (h, extract-NoNul b hb)

pub extract-eq-view :
    (b s : Bytes) → extract_fixed_string b ≡ some s → (view b ≡ s) × NoNul s × (length s < length b)
unfolding extract_fixed_string view
extract-eq-view [] s h = absurd (ground arith)
extract-eq-view (c ∷ b) s h = elim (Option-cases (extract_fixed_string b)) [
  | inl e ↦ ground arith
  | inr (t, e) ↦ ground (arith, extract-eq-view b t e)
]
