-- ===== src/Sessions/Counting.antt =====
-- How the number of a user's sessions changes with the map of descriptors.
use teams_mirror.Prelude.{
  ℕ, ◌+◌, ◌≡◌, refl, true, false, none, some, List, [], ◌∷◌, arith, if◌then◌else◌, same, any_of,
  nat_eq, Bool-cases, inl, inr, same→eq, subst,
}
use teams_mirror.Bytes.{Bytes}
use teams_mirror.Map.{Map, find, assign, erase}
use teams_mirror.Models.User.{User}
use teams_mirror.Commands.Lookup.{user_has_uuid}
use teams_mirror.Sessions.{count_sessions, AllKnown}

-- 1 for the user in question, 0 for another.
abbrev pub one_if : Bytes → Bytes → ℕ
one_if v uuid = if same v uuid then 1 else 0

pub count-assign :
    (fd : ℕ) (v uuid : Bytes) (m : Map ℕ Bytes)
    → find fd m ≡ none
    → count_sessions uuid (assign fd v m) ≡ count_sessions uuid m + one_if v uuid
unfolding count_sessions find assign
count-assign fd v uuid [] h = omega arith
count-assign fd v uuid ((j, w) ∷ m) h = ground (arith, count-assign fd v uuid m)

pub count-erase :
    (fd : ℕ) (v uuid : Bytes) (m : Map ℕ Bytes)
    → find fd m ≡ some v
    → count_sessions uuid m ≡ count_sessions uuid (erase fd m) + one_if v uuid
unfolding count_sessions find erase
count-erase fd v uuid [] h = absurd (ground arith)
count-erase fd v uuid ((j, w) ∷ m) h = ground (arith, count-erase fd v uuid m)

pub AllKnown-assign :
    (users : List User) (fd : ℕ) (v : Bytes) (m : Map ℕ Bytes)
    → any_of (user_has_uuid v) users ≡ true
    → AllKnown users m
    → AllKnown users (assign fd v m)
unfolding assign
AllKnown-assign users fd v [] h k = (h, tt)
AllKnown-assign users fd v ((j, w) ∷ m) h k = ground (arith, AllKnown-assign users fd v m h k.1)

pub AllKnown-erase :
    (users : List User) (fd : ℕ) (m : Map ℕ Bytes) → AllKnown users m → AllKnown users (erase fd m)
unfolding erase
AllKnown-erase users fd [] k = tt
AllKnown-erase users fd ((j, w) ∷ m) k = ground (arith, AllKnown-erase users fd m k.1)

-- Descriptors that are known to one list of users are known to another that has all their identifiers.
pub AllKnown-mono :
    (users users' : List User) (m : Map ℕ Bytes)
    → ((uuid : Bytes)
        → any_of (user_has_uuid uuid) users ≡ true
        → any_of (user_has_uuid uuid) users' ≡ true)
    → AllKnown users m
    → AllKnown users' m
AllKnown-mono users users' [] h k = tt
AllKnown-mono users users' ((j, w) ∷ m) h k = (h w k.0, AllKnown-mono users users' m h k.1)

-- An identifier that no user has counts no session.
pub count-unknown :
    (users : List User) (uuid : Bytes) (m : Map ℕ Bytes)
    → any_of (user_has_uuid uuid) users ≡ false
    → AllKnown users m
    → count_sessions uuid m ≡ 0
unfolding count_sessions
count-unknown users uuid [] h k = refl
count-unknown users uuid ((j, w) ∷ m) h k = elim (Bool-cases (same w uuid)) [
  | inl e ↦ absurd (clash (same→eq w uuid e))
  | inr e ↦ rw e (omega (arith, count-unknown users uuid m h k.1))
]
  where
    clash : w ≡ uuid → ⊥
    clash p =
        ground (arith, k.0, subst (λ (x : Bytes). any_of (user_has_uuid x) users ≡ true) p k.0)
