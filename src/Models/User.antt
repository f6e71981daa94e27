-- ===== src/Models/User.antt =====
-- server/models/user/user.hpp. The number of sessions is never negative: it starts at 0 or 1, and
-- removeLoggedIn stops at 0; `int32_t` does not overflow as there are fewer sessions than descriptors.
use teams_mirror.Prelude.{ℕ, ◌+◌, ◌-◌, Bool, if◌then◌else◌, leb}
use teams_mirror.Bytes.{Bytes, view}
use teams_mirror.Fields.{copy_buffer, zeroed}
use teams_mirror.Protocol.Limits.{uuid_length, max_name_length}

pub record User : Type 0 where
  pub uuid : Bytes
  pub name : Bytes
  pub is_logged_in : ℕ

unfoldable pub make : Bytes → Bytes → Bool → User
unfolding copy_buffer
make uuid name logged_in = record {
  uuid = copy_buffer (zeroed uuid_length) uuid;
  name = copy_buffer (zeroed max_name_length) name;
  is_logged_in = if logged_in then 1 else 0;
}

abbrev pub get_uuid : User → Bytes
get_uuid u = view u.uuid

abbrev pub get_name : User → Bytes
get_name u = view u.name

-- isLoggedIn
unfoldable pub logged_in : User → Bool
logged_in u = leb 1 u.is_logged_in

unfoldable pub reset_logged_in : User → User
reset_logged_in u = record u { is_logged_in = 0 }

unfoldable pub add_logged_in : User → User
add_logged_in u = record u { is_logged_in = u.is_logged_in + 1 }

unfoldable pub remove_logged_in : User → User
remove_logged_in u =
    if leb u.is_logged_in 0
    then record u { is_logged_in = 0 }
    else record u { is_logged_in = u.is_logged_in - 1 }
