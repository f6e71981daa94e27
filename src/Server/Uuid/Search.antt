-- ===== src/Server/Uuid/Search.antt =====
-- The search for an unused identifier: what it gives, and when it ends.
use teams_mirror.Prelude.{
  ℕ, zero, suc, ◌+◌, ◌*◌, ◌<◌, ◌≡◌, ◌≢◌, ap, Bool, true, false, none, some, List, [], ◌∷◌, arith,
  if◌then◌else◌, length, Bool-cases, inl, inr, same, same_iff, any_of,
}
use teams_mirror.Bytes.{Bytes}
use teams_mirror.Server.Uuid.{
  uuid_chars, generate_uuid, generate_unique, is_dash_position, is_uuid_format_valid,
}
use teams_mirror.Server.Uuid.Format.{DrawsDigits, generate_uuid-valid}

-- If the draws are hexadecimal digits, a result is an identifier of the right format that is not used.
pub generate_unique-unused :
    (attempts : ℕ) (used : Bytes → Bool) (draw : ℕ → ℕ) (n : ℕ) (u : Bytes) (n' : ℕ)
    → DrawsDigits draw
    → generate_unique attempts used draw n ≡ some (u, n')
    → (used u ≡ false) × (is_uuid_format_valid u ≡ true)
unfolding generate_unique
generate_unique-unused zero used draw n u n' d h = absurd (ground arith)
generate_unique-unused (suc a) used draw n u n' d h =
    elim (Bool-cases (used (generate_uuid draw n).0)) [
      | inl e ↦ generate_unique-unused a used draw (generate_uuid draw n).1 u n' d (rw e at h)
      | inr e ↦ ground (arith, generate_uuid-valid draw n d)
    ]

-- The k-th candidate from a number of draws on: each takes 32 draws.
abbrev pub candidate : (ℕ → ℕ) → ℕ → ℕ → Bytes
candidate draw n k = (generate_uuid draw (n + 32 * k)).0

draws-generate : (draw : ℕ → ℕ) (n : ℕ) → (generate_uuid draw n).1 ≡ n + 32
unfolding generate_uuid uuid_chars is_dash_position
draws-generate draw n = omega arith

-- One occurrence less.
without : Bytes → List Bytes → List Bytes
without u [] = []
without u (v ∷ vs) = if same v u then vs else v ∷ without u vs

abbrev pub among : Bytes → List Bytes → Bool
among u vs = any_of (λ v. same v u) vs

length-without :
    (u : Bytes) (vs : List Bytes) → among u vs ≡ true → suc (length (without u vs)) ≡ length vs
unfolding without any_of
length-without u [] h = absurd (ground arith)
length-without u (v ∷ vs) h = ground (arith, length-without u vs)

among-without :
    (u c : Bytes) (vs : List Bytes)
    → same c u ≡ false
    → among u vs ≡ true
    → among u (without c vs) ≡ true
unfolding without any_of
among-without u c [] d h = h
among-without u c (v ∷ vs) d h =
    ground (arith, same_iff v c, same_iff v u, same_iff c u, among-without u c vs d)

ne→same : (u v : Bytes) → u ≢ v → same u v ≡ false
ne→same u v h = elim (Bool-cases (same u v)) [ inl e ↦ absurd (h ((same_iff u v).0 e)) | inr e ↦ e ]

candidate-zero : (draw : ℕ → ℕ) (n : ℕ) → candidate draw n 0 ≡ (generate_uuid draw n).0
candidate-zero draw n = ap (λ (k : ℕ). (generate_uuid draw k).0) (omega arith)

candidate-suc :
    (draw : ℕ → ℕ) (n i : ℕ) → candidate draw (generate_uuid draw n).1 i ≡ candidate draw n (suc i)
candidate-suc draw n i =
    ap (λ (k : ℕ). (generate_uuid draw k).0) (omega (arith, draws-generate draw n))

again_none :
    (a : ℕ) (used : Bytes → Bool) (draw : ℕ → ℕ) (n : ℕ)
    → used (generate_uuid draw n).0 ≡ true
    → generate_unique (suc a) used draw n ≡ none
    → generate_unique a used draw (generate_uuid draw n).1 ≡ none
unfolding generate_unique
again_none a used draw n u e = rw u at e

-- If the candidates that are tried differ from one another, and there are more of them than identifiers in
-- use, then the search ends with a result.
pub generate_unique-total :
    (attempts : ℕ) (used : Bytes → Bool) (draw : ℕ → ℕ) (n : ℕ) (taken : List Bytes)
    → ((i j : ℕ) → i < j → j < attempts → candidate draw n i ≢ candidate draw n j)
    → ((i : ℕ)
        → i < attempts
        → used (candidate draw n i) ≡ true
        → among (candidate draw n i) taken ≡ true)
    → length taken < attempts
    → generate_unique attempts used draw n ≢ none
generate_unique-total zero used draw n taken distinct known small e = absurd (omega arith)
generate_unique-total (suc a) used draw n taken distinct known small e =
    elim (Bool-cases (used (generate_uuid draw n).0)) [
      | inl u ↦
          generate_unique-total a used draw (generate_uuid draw n).1 (without first taken)
            (λ i j p q.
              rw (candidate-suc draw n i, candidate-suc draw n j)
                (distinct (suc i) (suc j) (omega arith) (omega arith)))
            (λ i p. rw (candidate-suc draw n i) (λ v.
              among-without (candidate draw n (suc i)) first taken
                (ne→same _ _ (distinct 0 (suc i) (omega arith) (omega arith)))
                (known (suc i) (omega arith) v)))
            (omega (
              arith,
              length-without first taken (known 0 (omega arith) (rw (candidate-zero draw n) u)),
            ))
            (again_none a used draw n u e)
      | inr u ↦ unfold generate_unique in ground arith
    ]
  where
    first : Bytes
    first = candidate draw n 0
