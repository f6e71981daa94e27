-- ===== src/Clients/Descriptors.antt =====
-- The descriptors of the clients of ClientManager (server/core/client_manager/), in the order of the map.
use teams_mirror.Prelude.{
  ℕ, ◌==◌, ◌≡◌, refl, ap, ◌∙◌, false, List, [], ◌∷◌, ◌++◌, arith, nat_eq, if◌then◌else◌, Bool, true,
  ◌||◌,
}
use teams_mirror.Map.{Map, contains, adjust, erase, emplace}
use teams_mirror.Clients.{ClientManager}
use teams_mirror.Clients.Incoming.{incoming}

-- The keys of a map.
unfoldable pub descriptors {ℓ} : {V : Type ℓ} → Map ℕ V → List ℕ
descriptors [] = []
descriptors ((fd, v) ∷ m) = fd ∷ descriptors m

-- The list without the first occurrence of a number.
unfoldable pub remove_first : ℕ → List ℕ → List ℕ
remove_first n [] = []
remove_first n (x ∷ xs) = if x == n then xs else x ∷ remove_first n xs

unfoldable pub among : ℕ → List ℕ → Bool
among n [] = false
among n (x ∷ xs) = x == n || among n xs

abbrev pub Distinct : List ℕ → Type 0
Distinct [] = Unit
Distinct (x ∷ xs) = (among x xs ≡ false) × Distinct xs

module _ {ℓ} {V : Type ℓ} where
  pub descriptors-adjust :
      (k : ℕ) (f : V → V) (m : Map ℕ V) → descriptors (adjust k f m) ≡ descriptors m
  unfolding descriptors adjust
  descriptors-adjust k f [] = refl
  descriptors-adjust k f ((j, v) ∷ m) = ground (arith, descriptors-adjust k f m)

  pub descriptors-erase :
      (k : ℕ) (m : Map ℕ V) → descriptors (erase k m) ≡ remove_first k (descriptors m)
  unfolding descriptors erase remove_first
  descriptors-erase k [] = refl
  descriptors-erase k ((j, v) ∷ m) = ground (arith, descriptors-erase k m)

  pub descriptors-emplace :
      (k : ℕ) (v : V) (m : Map ℕ V)
      → among k (descriptors m) ≡ false
      → descriptors (emplace k v m) ≡ descriptors m ++ k ∷ []
  unfolding descriptors emplace among
  descriptors-emplace k v [] h = refl
  descriptors-emplace k v ((j, w) ∷ m) h = ground (arith, descriptors-emplace k v m)

  pub contains-among : (k : ℕ) (m : Map ℕ V) → contains k m ≡ among k (descriptors m)
  unfolding descriptors contains among
  contains-among k [] = refl
  contains-among k ((j, w) ∷ m) = ground (arith, contains-among k m)

pub descriptors-incoming : (m : ClientManager) → descriptors (incoming m) ≡ descriptors m
unfolding descriptors incoming
descriptors-incoming [] = refl
descriptors-incoming ((fd, c) ∷ m) = ap (◌∷◌ fd) (descriptors-incoming m)

pub among-remove_first : (n : ℕ) (xs : List ℕ) → Distinct xs → among n (remove_first n xs) ≡ false
unfolding among remove_first
among-remove_first n [] d = refl
among-remove_first n (x ∷ xs) d = ground (arith, among-remove_first n xs, d)

pub contains-erase {ℓ} :
    {V : Type ℓ} (k : ℕ) (m : Map ℕ V) → Distinct (descriptors m) → contains k (erase k m) ≡ false
contains-erase k m d =
    contains-among k (erase k m)
    ∙ ap (among k) (descriptors-erase k m)
    ∙ among-remove_first k (descriptors m) d

pub among-append : (n : ℕ) (xs ys : List ℕ) → among n (xs ++ ys) ≡ (among n xs || among n ys)
unfolding among
among-append n [] ys = refl
among-append n (x ∷ xs) ys = ground (arith, among-append n xs ys)

among_middle : (n : ℕ) (xs ys : List ℕ) → among n (xs ++ n ∷ ys) ≡ true
unfolding among
among_middle n xs ys = among-append n xs (n ∷ ys) ∙ ground arith

pub remove_first-append :
    (n : ℕ) (xs ys : List ℕ) → Distinct (xs ++ n ∷ ys) → remove_first n (xs ++ n ∷ ys) ≡ xs ++ ys
unfolding among remove_first
remove_first-append n [] ys d = ground arith
remove_first-append n (x ∷ xs) ys d =
    ground (arith, remove_first-append n xs ys, among_middle n xs ys, d)

pub Distinct-last :
    (n : ℕ) (xs : List ℕ) → Distinct xs → among n xs ≡ false → Distinct (xs ++ n ∷ [])
unfolding among
Distinct-last n [] d h = (refl, tt)
Distinct-last n (x ∷ xs) d h =
    (ground (arith, h, d, among-append x xs (n ∷ [])), Distinct-last n xs d.1 (ground (arith, h)))

pub Distinct-without : (n : ℕ) (xs ys : List ℕ) → Distinct (xs ++ n ∷ ys) → Distinct (xs ++ ys)
unfolding among
Distinct-without n [] ys d = d.1
Distinct-without n (x ∷ xs) ys d = (
  ground (arith, d.0, among-append x xs (n ∷ ys), among-append x xs ys),
  Distinct-without n xs ys d.1,
)
