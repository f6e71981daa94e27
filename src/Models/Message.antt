-- ===== src/Models/Message.antt =====
-- server/models/message/message.hpp
use teams_mirror.Prelude.Int.{ℤ}
use teams_mirror.Bytes.{Bytes, view}
use teams_mirror.Fields.{copy_buffer, zeroed}
use teams_mirror.Protocol.Limits.{uuid_length, max_body_length}

pub record Message : Type 0 where
  pub uuid : Bytes
  pub author_uuid : Bytes
  pub receiver_uuid : Bytes
  pub created_at : ℤ
  pub body : Bytes

unfoldable pub make : Bytes → Bytes → ℤ → Bytes → Bytes → Message
unfolding copy_buffer
make uuid author_uuid created_at body receiver_uuid = record {
  uuid = copy_buffer (zeroed uuid_length) uuid;
  author_uuid = copy_buffer (zeroed uuid_length) author_uuid;
  receiver_uuid = copy_buffer (zeroed uuid_length) receiver_uuid;
  created_at = created_at;
  body = copy_buffer (zeroed max_body_length) body;
}

abbrev pub get_uuid : Message → Bytes
get_uuid m = view m.uuid

abbrev pub get_author_uuid : Message → Bytes
get_author_uuid m = view m.author_uuid

abbrev pub get_receiver_uuid : Message → Bytes
get_receiver_uuid m = view m.receiver_uuid

abbrev pub get_body : Message → Bytes
get_body m = view m.body
