-- ===== src/Models/Team.antt =====
-- server/models/team/team.hpp
use teams_mirror.Prelude.{Bool, not, List, [], ◌∷◌, ◌++◌, ◌==◌, same, any_of, remove_if, length}
use teams_mirror.Bytes.{Bytes, view}
use teams_mirror.Fields.{copy_buffer, zeroed}
use teams_mirror.Protocol.Limits.{uuid_length, max_name_length, max_description_length}
use teams_mirror.Models.Channel.{Channel}

pub record Team : Type 0 where
  pub uuid : Bytes
  pub name : Bytes
  pub description : Bytes
  pub subscribed_user_uuids : List Bytes
  pub channels : List Channel

unfoldable pub make : Bytes → Bytes → Bytes → Team
unfolding copy_buffer
make uuid name description = record {
  uuid = copy_buffer (zeroed uuid_length) uuid;
  name = copy_buffer (zeroed max_name_length) name;
  description = copy_buffer (zeroed max_description_length) description;
  subscribed_user_uuids = [];
  channels = [];
}

abbrev pub get_uuid : Team → Bytes
get_uuid t = view t.uuid

abbrev pub get_name : Team → Bytes
get_name t = view t.name

abbrev pub get_description : Team → Bytes
get_description t = view t.description

unfoldable pub make_uuid : Bytes → Bytes
unfolding copy_buffer
make_uuid source = copy_buffer (zeroed uuid_length) source

unfoldable pub add_subscribed_user : Bytes → Team → Team
unfolding make_uuid
add_subscribed_user user_uuid t = record t {
  subscribed_user_uuids = t.subscribed_user_uuids ++ make_uuid user_uuid ∷ [];
}

unfoldable pub is_user_subscribed : Bytes → Team → Bool
is_user_subscribed user_uuid t =
    any_of (λ stored. same (view stored) user_uuid) t.subscribed_user_uuids

abbrev others : Bytes → Team → List Bytes
others user_uuid t = remove_if (λ stored. same (view stored) user_uuid) t.subscribed_user_uuids

-- The team after the call, and whether something was removed.
unfoldable pub remove_subscribed_user : Bytes → Team → Team × Bool
remove_subscribed_user user_uuid t = (
  record t { subscribed_user_uuids = others user_uuid t },
  not (length (others user_uuid t) == length t.subscribed_user_uuids),
)

unfoldable pub add_channel : Channel → Team → Team
add_channel channel t = record t { channels = t.channels ++ channel ∷ [] }
