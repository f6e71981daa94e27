-- ===== src/Models/Thread.antt =====
-- server/models/thread/thread.hpp
use teams_mirror.Prelude.{List, [], ◌∷◌, ◌++◌}
use teams_mirror.Prelude.Int.{ℤ}
use teams_mirror.Bytes.{Bytes, view}
use teams_mirror.Fields.{copy_buffer, zeroed}
use teams_mirror.Protocol.Limits.{uuid_length, max_name_length, max_body_length}
use teams_mirror.Models.Message.{Message}

pub record Thread : Type 0 where
  pub uuid : Bytes
  pub author_uuid : Bytes
  pub created_at : ℤ
  pub title : Bytes
  pub body : Bytes
  pub replies : List Message

unfoldable pub make : Bytes → Bytes → ℤ → Bytes → Bytes → Thread
unfolding copy_buffer
make uuid author_uuid created_at title body = record {
  uuid = copy_buffer (zeroed uuid_length) uuid;
  author_uuid = copy_buffer (zeroed uuid_length) author_uuid;
  created_at = created_at;
  title = copy_buffer (zeroed max_name_length) title;
  body = copy_buffer (zeroed max_body_length) body;
  replies = [];
}

abbrev pub get_uuid : Thread → Bytes
get_uuid t = view t.uuid

abbrev pub get_author_uuid : Thread → Bytes
get_author_uuid t = view t.author_uuid

abbrev pub get_title : Thread → Bytes
get_title t = view t.title

abbrev pub get_body : Thread → Bytes
get_body t = view t.body

unfoldable pub add_reply : Message → Thread → Thread
add_reply message t = record t { replies = t.replies ++ message ∷ [] }
