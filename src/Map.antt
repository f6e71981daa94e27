-- ===== src/Map.antt =====
-- std::unordered_map as an association list, to which a new key is appended. The language leaves the order of
-- the container's iteration open; the order of the list is one that it may have.
use teams_mirror.Prelude.{
  ◌≡◌, ◌∙◌, Bool, true, false, Option, none, some, List, [], ◌∷◌, arith, if◌then◌else◌, Eq, refl,
  Bool-cases, inl, inr,
}

abbrev pub Map {ℓ κ} : Type ℓ → Type κ → Type (ℓ ⊔ κ)
Map K V = List (K × V)

module _ {ℓ κ} {K : Type ℓ} {V : Type κ} ⦃e : Eq K⦄ where
  -- find(k), as the value found
  unfoldable pub find : K → Map K V → Option V
  find k [] = none
  find k ((j, v) ∷ m) = if e.beq j k then some v else find k m

  -- find(k) != end()
  unfoldable pub contains : K → Map K V → Bool
  contains k [] = false
  contains k ((j, v) ∷ m) = if e.beq j k then true else contains k m

  -- erase(k)
  unfoldable pub erase : K → Map K V → Map K V
  erase k [] = []
  erase k ((j, v) ∷ m) = if e.beq j k then m else (j, v) ∷ erase k m

  -- A change of the value of a key that is there.
  unfoldable pub adjust : K → (V → V) → Map K V → Map K V
  adjust k f [] = []
  adjust k f ((j, v) ∷ m) = if e.beq j k then (j, f v) ∷ m else (j, v) ∷ adjust k f m

  -- m[k] = v
  unfoldable pub assign : K → V → Map K V → Map K V
  assign k v [] = (k, v) ∷ []
  assign k v ((j, w) ∷ m) = if e.beq j k then (j, v) ∷ m else (j, w) ∷ assign k v m

  -- emplace(k, v): a key that is there keeps its value.
  unfoldable pub emplace : K → V → Map K V → Map K V
  emplace k v [] = (k, v) ∷ []
  emplace k v ((j, w) ∷ m) = if e.beq j k then (j, w) ∷ m else (j, w) ∷ emplace k v m

  pub find-adjust :
      (k j : K) (f : V → V) (m : Map K V)
      → find j (adjust k f m)
        ≡ (if e.beq k j then elim (find j m) [ none ↦ none | some v ↦ some (f v) ] else find j m)
  unfolding find adjust
  find-adjust k j f [] = ground arith
  find-adjust k j f ((i, v) ∷ m) =
      ground (arith, find-adjust k j f m, e.beq_iff i k, e.beq_iff i j, e.beq_iff k j)

  pub find-assign :
      (k j : K) (v : V) (m : Map K V)
      → find j (assign k v m) ≡ (if e.beq k j then some v else find j m)
  unfolding find assign
  find-assign k j v [] = ground arith
  find-assign k j v ((i, w) ∷ m) =
      ground (arith, find-assign k j v m, e.beq_iff i k, e.beq_iff i j, e.beq_iff k j)

  pub find-emplace :
      (k j : K) (v : V) (m : Map K V)
      → find j (emplace k v m)
        ≡ (if e.beq k j then (elim (find j m) [ none ↦ some v | some w ↦ some w ]) else find j m)
  unfolding find emplace
  find-emplace k j v [] = ground arith
  find-emplace k j v ((i, w) ∷ m) =
      ground (arith, find-emplace k j v m, e.beq_iff i k, e.beq_iff i j, e.beq_iff k j)

  -- No key has two entries.
  abbrev pub KeysOnce : Map K V → Type 0
  KeysOnce [] = Unit {0}
  KeysOnce ((j, v) ∷ m) = (contains j m ≡ false) × KeysOnce m

  pub find-absent : (k : K) (m : Map K V) → contains k m ≡ false → find k m ≡ none
  unfolding find contains
  find-absent k [] h = refl
  find-absent k ((j, v) ∷ m) h = ground (arith, find-absent k m)

  pub find-erase :
      (k j : K) (m : Map K V)
      → KeysOnce m
      → find j (erase k m) ≡ (if e.beq k j then none else find j m)
  unfolding find erase
  find-erase k j [] h = ground arith
  find-erase k j ((i, w) ∷ m) (here, rest) = ground (
    arith,
    find-erase k j m rest,
    find-absent i m here,
    e.beq_iff i k,
    e.beq_iff i j,
    e.beq_iff k j,
  )

  contains-adjust : (k j : K) (f : V → V) (m : Map K V) → contains j (adjust k f m) ≡ contains j m
  unfolding contains adjust
  contains-adjust k j f [] = refl
  contains-adjust k j f ((i, v) ∷ m) = ground (arith, contains-adjust k j f m)

  pub KeysOnce-adjust : (k : K) (f : V → V) (m : Map K V) → KeysOnce m → KeysOnce (adjust k f m)
  unfolding adjust
  KeysOnce-adjust k f [] h = h
  KeysOnce-adjust k f ((i, v) ∷ m) (here, rest) = elim (Bool-cases (e.beq i k)) [
    | inl t ↦ rw t (here, rest)
    | inr t ↦ rw t (contains-adjust k i f m ∙ here, KeysOnce-adjust k f m rest)
  ]

  contains-emplace :
      (k j : K) (v : V) (m : Map K V)
      → e.beq k j ≡ false
      → contains j (emplace k v m) ≡ contains j m
  unfolding contains emplace
  contains-emplace k j v [] d = ground arith
  contains-emplace k j v ((i, w) ∷ m) d =
      ground (arith, contains-emplace k j v m d, e.beq_iff i k, e.beq_iff i j, e.beq_iff k j)

  pub KeysOnce-emplace : (k : K) (v : V) (m : Map K V) → KeysOnce m → KeysOnce (emplace k v m)
  unfolding emplace contains
  KeysOnce-emplace k v [] h = (refl, tt)
  KeysOnce-emplace k v ((i, w) ∷ m) (here, rest) = elim (Bool-cases (e.beq i k)) [
    | inl t ↦ rw t (here, rest)
    | inr t ↦ rw t (
      contains-emplace k i v m (ground (arith, e.beq_iff i k, e.beq_iff k i)) ∙ here,
      KeysOnce-emplace k v m rest,
    )
  ]
