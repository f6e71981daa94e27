-- ===== src/Protocol/Replies.antt =====
-- The replies and events of common/protocol.hpp. A packed struct is sent as the concatenation of its
-- fields, integers in the byte order of the host, which is little endian.
use teams_mirror.Prelude.{ℕ, ◌++◌}
use teams_mirror.Bytes.{Bytes}
use teams_mirror.Protocol.Integers.{le_bytes}

pub record PayloadRplUser : Type 0 where
  pub user_uuid : Bytes
  pub user_name : Bytes
  pub user_status : ℕ

unfoldable pub encode_rpl_user : PayloadRplUser → Bytes
encode_rpl_user p = p.user_uuid ++ (p.user_name ++ (le_bytes 4 p.user_status))

pub record PayloadRplMessage : Type 0 where
  pub sender_uuid : Bytes
  pub message_timestamp : ℕ
  pub message_body : Bytes

unfoldable pub encode_rpl_message : PayloadRplMessage → Bytes
encode_rpl_message p = p.sender_uuid ++ (le_bytes 8 p.message_timestamp ++ p.message_body)

pub record PayloadRplTeam : Type 0 where
  pub team_uuid : Bytes
  pub team_name : Bytes
  pub team_description : Bytes

unfoldable pub encode_rpl_team : PayloadRplTeam → Bytes
encode_rpl_team p = p.team_uuid ++ (p.team_name ++ p.team_description)

pub record PayloadRplChannel : Type 0 where
  pub channel_uuid : Bytes
  pub channel_name : Bytes
  pub channel_description : Bytes

unfoldable pub encode_rpl_channel : PayloadRplChannel → Bytes
encode_rpl_channel p = p.channel_uuid ++ (p.channel_name ++ p.channel_description)

pub record PayloadRplThread : Type 0 where
  pub thread_uuid : Bytes
  pub user_uuid : Bytes
  pub thread_timestamp : ℕ
  pub thread_title : Bytes
  pub thread_body : Bytes

unfoldable pub encode_rpl_thread : PayloadRplThread → Bytes
encode_rpl_thread p =
    p.thread_uuid
    ++ (p.user_uuid ++ (le_bytes 8 p.thread_timestamp ++ (p.thread_title ++ p.thread_body)))

pub record PayloadRplReply : Type 0 where
  pub thread_uuid : Bytes
  pub user_uuid : Bytes
  pub reply_timestamp : ℕ
  pub reply_body : Bytes

unfoldable pub encode_rpl_reply : PayloadRplReply → Bytes
encode_rpl_reply p =
    p.thread_uuid ++ (p.user_uuid ++ (le_bytes 8 p.reply_timestamp ++ p.reply_body))

pub record PayloadEvtUserConnection : Type 0 where
  pub user_uuid : Bytes
  pub user_name : Bytes

unfoldable pub encode_evt_user_connection : PayloadEvtUserConnection → Bytes
encode_evt_user_connection p = p.user_uuid ++ p.user_name

pub record PayloadEvtPrivateMsg : Type 0 where
  pub sender_uuid : Bytes
  pub message_body : Bytes

unfoldable pub encode_evt_private_msg : PayloadEvtPrivateMsg → Bytes
encode_evt_private_msg p = p.sender_uuid ++ p.message_body

pub record PayloadEvtTeamCreated : Type 0 where
  pub team_uuid : Bytes
  pub team_name : Bytes
  pub team_description : Bytes

unfoldable pub encode_evt_team_created : PayloadEvtTeamCreated → Bytes
encode_evt_team_created p = p.team_uuid ++ (p.team_name ++ p.team_description)

pub record PayloadEvtChannelCreated : Type 0 where
  pub channel_uuid : Bytes
  pub channel_name : Bytes
  pub channel_description : Bytes

unfoldable pub encode_evt_channel_created : PayloadEvtChannelCreated → Bytes
encode_evt_channel_created p = p.channel_uuid ++ (p.channel_name ++ p.channel_description)

pub record PayloadEvtThreadCreated : Type 0 where
  pub thread_uuid : Bytes
  pub user_uuid : Bytes
  pub thread_timestamp : ℕ
  pub thread_title : Bytes
  pub thread_body : Bytes

unfoldable pub encode_evt_thread_created : PayloadEvtThreadCreated → Bytes
encode_evt_thread_created p =
    p.thread_uuid
    ++ (p.user_uuid ++ (le_bytes 8 p.thread_timestamp ++ (p.thread_title ++ p.thread_body)))

pub record PayloadEvtReplyCreated : Type 0 where
  pub team_uuid : Bytes
  pub thread_uuid : Bytes
  pub user_uuid : Bytes
  pub reply_body : Bytes

unfoldable pub encode_evt_reply_created : PayloadEvtReplyCreated → Bytes
encode_evt_reply_created p = p.team_uuid ++ (p.thread_uuid ++ (p.user_uuid ++ p.reply_body))

pub record PayloadErrUnknown : Type 0 where
  pub unknown_uuid : Bytes

unfoldable pub encode_err_unknown : PayloadErrUnknown → Bytes
encode_err_unknown p = p.unknown_uuid
