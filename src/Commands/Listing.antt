-- ===== src/Commands/Listing.antt =====
-- server/commands/list_command.cpp
use teams_mirror.Prelude.{◌==◌, not, none, some, List, [], ◌∷◌, if◌then◌else◌}
use teams_mirror.Prelude.Int.{to_u64}
use teams_mirror.Bytes.{Bytes, copy_padded_string}
use teams_mirror.Fields.{zeroed}
use teams_mirror.Protocol.Limits.{
  uuid_length, max_name_length, max_description_length, max_body_length,
}
use teams_mirror.Protocol.{
  StatusCode, rpl_ok, rpl_teams_list, rpl_channels_list, rpl_threads_list, rpl_replies_list,
  err_bad_request, err_unauthorized,
}
use teams_mirror.Protocol.Replies.{
  encode_rpl_team, PayloadRplChannel, encode_rpl_channel, PayloadRplThread, encode_rpl_thread,
  PayloadRplReply, encode_rpl_reply,
}
use teams_mirror.Server.{Server, Request, queue_status, queue_reply}
use teams_mirror.Models.Message.{Message}
use teams_mirror.Models.Message
use teams_mirror.Models.Thread.{Thread}
use teams_mirror.Models.Thread
use teams_mirror.Models.Channel.{Channel}
use teams_mirror.Models.Channel
use teams_mirror.Models.Team.{Team}
use teams_mirror.Commands.Lookup.{get_authenticated_user}
use teams_mirror.Commands.Subscription.{team_payload}
use teams_mirror.Commands.Navigation.{
  Target, at_root, at_team, at_channel, at_thread, refused, client_target,
}

-- The payloads of a list, each taken from its element.
unfoldable pub payloads_of {ℓ} : {A : Type ℓ} → (A → Bytes) → List A → List Bytes
payloads_of payload [] = []
payloads_of payload (x ∷ xs) = payload x ∷ payloads_of payload xs

unfoldable pub queue_payloads : Request → StatusCode → List Bytes → Server → Server
queue_payloads r status [] s = s
queue_payloads r status (p ∷ ps) s = queue_payloads r status ps (queue_reply r status p s)

unfoldable pub queue_payload_array : Request → StatusCode → List Bytes → Server → Server
unfolding queue_payloads
queue_payload_array r status payloads s = queue_status r rpl_ok (queue_payloads r status payloads s)

unfoldable pub channel_payload : Channel → PayloadRplChannel
unfolding copy_padded_string
channel_payload channel = record {
  channel_uuid = copy_padded_string (zeroed uuid_length) (Channel.get_uuid channel);
  channel_name = copy_padded_string (zeroed max_name_length) (Channel.get_name channel);
  channel_description =
      copy_padded_string (zeroed max_description_length) (Channel.get_description channel);
}

unfoldable pub thread_payload : Thread → PayloadRplThread
unfolding copy_padded_string
thread_payload thread = record {
  thread_uuid = copy_padded_string (zeroed uuid_length) (Thread.get_uuid thread);
  user_uuid = copy_padded_string (zeroed uuid_length) (Thread.get_author_uuid thread);
  thread_timestamp = to_u64 thread.created_at;
  thread_title = copy_padded_string (zeroed max_name_length) (Thread.get_title thread);
  thread_body = copy_padded_string (zeroed max_body_length) (Thread.get_body thread);
}

unfoldable pub reply_payload : Thread → Message → PayloadRplReply
unfolding copy_padded_string
reply_payload thread reply = record {
  thread_uuid = copy_padded_string (zeroed uuid_length) (Thread.get_uuid thread);
  user_uuid = copy_padded_string (zeroed uuid_length) (Message.get_author_uuid reply);
  reply_timestamp = to_u64 reply.created_at;
  reply_body = copy_padded_string (zeroed max_body_length) (Message.get_body reply);
}

unfoldable pub queue_teams_list : Request → List Team → Server → Server
unfolding payloads_of queue_payload_array
queue_teams_list r teams s =
    queue_payload_array r rpl_teams_list
      (payloads_of (λ team. encode_rpl_team (team_payload team)) teams) s

unfoldable pub queue_channels_list : Request → Team → Server → Server
unfolding payloads_of queue_payload_array
queue_channels_list r team s =
    queue_payload_array r rpl_channels_list
      (payloads_of (λ channel. encode_rpl_channel (channel_payload channel)) team.channels) s

unfoldable pub queue_threads_list : Request → Channel → Server → Server
unfolding payloads_of queue_payload_array
queue_threads_list r channel s =
    queue_payload_array r rpl_threads_list
      (payloads_of (λ thread. encode_rpl_thread (thread_payload thread)) channel.threads) s

unfoldable pub queue_replies_list : Request → Thread → Server → Server
unfolding payloads_of queue_payload_array
queue_replies_list r thread s =
    queue_payload_array r rpl_replies_list
      (payloads_of (λ reply. encode_rpl_reply (reply_payload thread reply)) thread.replies) s

unfoldable pub list_target : Request → Server → Target → Server
unfolding queue_teams_list queue_channels_list queue_threads_list queue_replies_list
list_target r s at_root = queue_teams_list r s.teams s
list_target r s (at_team team) = queue_channels_list r team s
list_target r s (at_channel channel) = queue_threads_list r channel s
list_target r s (at_thread thread) = queue_replies_list r thread s
list_target r s (refused status) = queue_status r status s

unfoldable pub handle_list_command : Request → Server → Server
unfolding list_target
handle_list_command r s =
    if not (r.payload_size == 0)
    then queue_status r err_bad_request s
    else elim (get_authenticated_user r s) [
      | none ↦ queue_status r err_unauthorized s
      | some user ↦ list_target r s (client_target r user s)
    ]
