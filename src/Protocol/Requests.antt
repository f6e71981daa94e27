-- ===== src/Protocol/Requests.antt =====
-- The requests of common/protocol.hpp. A packed struct is the concatenation of its fields; a request
-- is taken out of the payload bytes as `memcpy` into the struct does.
use teams_mirror.Prelude.{ℕ, ◌+◌, take, drop}
use teams_mirror.Bytes.{Bytes}
use teams_mirror.Protocol.Limits.{
  uuid_length, max_name_length, max_description_length, max_body_length,
}

pub record PayloadReqLogin : Type 0 where
  pub user_name : Bytes

abbrev pub size_req_login : ℕ
size_req_login = max_name_length

unfoldable pub decode_req_login : Bytes → PayloadReqLogin
decode_req_login bytes = record { user_name = take max_name_length bytes }

pub record PayloadReqTargetUser : Type 0 where
  pub target_uuid : Bytes

abbrev pub size_req_target_user : ℕ
size_req_target_user = uuid_length

unfoldable pub decode_req_target_user : Bytes → PayloadReqTargetUser
decode_req_target_user bytes = record { target_uuid = take uuid_length bytes }

pub record PayloadReqSendMsg : Type 0 where
  pub target_uuid : Bytes
  pub message_body : Bytes

abbrev pub size_req_send_msg : ℕ
size_req_send_msg = uuid_length + max_body_length

unfoldable pub decode_req_send_msg : Bytes → PayloadReqSendMsg
decode_req_send_msg bytes = record {
  target_uuid = take uuid_length bytes;
  message_body = take max_body_length (drop (uuid_length) bytes);
}

pub record PayloadReqTeamTarget : Type 0 where
  pub team_uuid : Bytes

abbrev pub size_req_team_target : ℕ
size_req_team_target = uuid_length

unfoldable pub decode_req_team_target : Bytes → PayloadReqTeamTarget
decode_req_team_target bytes = record { team_uuid = take uuid_length bytes }

pub record PayloadReqUse : Type 0 where
  pub team_uuid : Bytes
  pub channel_uuid : Bytes
  pub thread_uuid : Bytes

abbrev pub size_req_use : ℕ
size_req_use = uuid_length + uuid_length + uuid_length

unfoldable pub decode_req_use : Bytes → PayloadReqUse
decode_req_use bytes = record {
  team_uuid = take uuid_length bytes;
  channel_uuid = take uuid_length (drop (uuid_length) bytes);
  thread_uuid = take uuid_length (drop (uuid_length + uuid_length) bytes);
}

pub record PayloadReqCreateTeam : Type 0 where
  pub team_name : Bytes
  pub team_description : Bytes

abbrev pub size_req_create_team : ℕ
size_req_create_team = max_name_length + max_description_length

unfoldable pub decode_req_create_team : Bytes → PayloadReqCreateTeam
decode_req_create_team bytes = record {
  team_name = take max_name_length bytes;
  team_description = take max_description_length (drop (max_name_length) bytes);
}

pub record PayloadReqCreateChannel : Type 0 where
  pub channel_name : Bytes
  pub channel_description : Bytes

abbrev pub size_req_create_channel : ℕ
size_req_create_channel = max_name_length + max_description_length

unfoldable pub decode_req_create_channel : Bytes → PayloadReqCreateChannel
decode_req_create_channel bytes = record {
  channel_name = take max_name_length bytes;
  channel_description = take max_description_length (drop (max_name_length) bytes);
}

pub record PayloadReqCreateThread : Type 0 where
  pub thread_title : Bytes
  pub thread_body : Bytes

abbrev pub size_req_create_thread : ℕ
size_req_create_thread = max_name_length + max_body_length

unfoldable pub decode_req_create_thread : Bytes → PayloadReqCreateThread
decode_req_create_thread bytes = record {
  thread_title = take max_name_length bytes;
  thread_body = take max_body_length (drop (max_name_length) bytes);
}

pub record PayloadReqCreateReply : Type 0 where
  pub reply_body : Bytes

abbrev pub size_req_create_reply : ℕ
size_req_create_reply = max_body_length

unfoldable pub decode_req_create_reply : Bytes → PayloadReqCreateReply
decode_req_create_reply bytes = record { reply_body = take max_body_length bytes }
