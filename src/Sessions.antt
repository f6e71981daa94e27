-- ===== src/Sessions.antt =====
-- The sessions: which user is logged in at which descriptor, against the users' own counters.
pub mod Receivers
pub mod Deliveries
pub mod Counting
pub mod Update
pub mod Handlers
pub mod Others
pub mod Steps
use teams_mirror.Prelude.{
  ℕ, ◌+◌, ◌≡◌, Bool, true, false, List, [], ◌∷◌, if◌then◌else◌, same, any_of, All,
}
use teams_mirror.Bytes.{Bytes}
use teams_mirror.Map.{Map}
use teams_mirror.Server.{Server}
use teams_mirror.Models.User.{User}
use teams_mirror.Models.User
use teams_mirror.Commands.Lookup.{user_has_uuid}

-- The number of descriptors at which a user is logged in.
unfoldable pub count_sessions : Bytes → Map ℕ Bytes → ℕ
count_sessions uuid [] = 0
count_sessions uuid ((fd, u) ∷ m) = (if same u uuid then 1 else 0) + count_sessions uuid m

-- No two users share an identifier.
abbrev pub DistinctUuids : List User → Type 0
DistinctUuids [] = Unit
DistinctUuids (u ∷ us) = (any_of (user_has_uuid (User.get_uuid u)) us ≡ false) × DistinctUuids us

-- Every descriptor that is logged in belongs to a user that exists.
abbrev pub AllKnown : List User → Map ℕ Bytes → Type 0
AllKnown users [] = Unit
AllKnown users ((fd, uuid) ∷ m) = (any_of (user_has_uuid uuid) users ≡ true) × AllKnown users m

-- Each user's counter is the number of its sessions.
abbrev pub Counted : (Bytes → ℕ) → List User → Type 0
Counted count users = All (λ u. u.is_logged_in ≡ count (User.get_uuid u)) users

pub record Consistent (users : List User) (by_fd : Map ℕ Bytes) : Type 0 where
  pub counted : Counted (λ uuid. count_sessions uuid by_fd) users
  pub distinct : DistinctUuids users
  pub known : AllKnown users by_fd

abbrev pub SessionsConsistent : Server → Type 0
SessionsConsistent s = Consistent s.users s.authenticated_users_by_fd
