-- ===== src/Models/Channel.antt =====
-- server/models/channel/channel.hpp
use teams_mirror.Prelude.{List, [], ◌∷◌, ◌++◌}
use teams_mirror.Bytes.{Bytes, view}
use teams_mirror.Fields.{copy_buffer, zeroed}
use teams_mirror.Protocol.Limits.{uuid_length, max_name_length, max_description_length}
use teams_mirror.Models.Thread.{Thread}

pub record Channel : Type 0 where
  pub uuid : Bytes
  pub name : Bytes
  pub description : Bytes
  pub threads : List Thread

unfoldable pub make : Bytes → Bytes → Bytes → Channel
unfolding copy_buffer
make uuid name description = record {
  uuid = copy_buffer (zeroed uuid_length) uuid;
  name = copy_buffer (zeroed max_name_length) name;
  description = copy_buffer (zeroed max_description_length) description;
  threads = [];
}

abbrev pub get_uuid : Channel → Bytes
get_uuid c = view c.uuid

abbrev pub get_name : Channel → Bytes
get_name c = view c.name

abbrev pub get_description : Channel → Bytes
get_description c = view c.description

unfoldable pub add_thread : Thread → Channel → Channel
add_thread thread c = record c { threads = c.threads ++ thread ∷ [] }
