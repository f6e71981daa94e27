-- ===== src/Commands/CreateAnswers.antt =====
-- server/commands/create_command.cpp: the identifiers of new objects, and the packets that announce them.
use teams_mirror.Prelude.{ℕ, Bool, Option, List, any_of}
use teams_mirror.Prelude.Int.{ℤ, to_u64}
use teams_mirror.Bytes.{Bytes, copy_padded_string}
use teams_mirror.Fields.{zeroed}
use teams_mirror.Protocol.Limits.{
  uuid_length, max_name_length, max_description_length, max_body_length,
}
use teams_mirror.Protocol.{
  rpl_created, evt_team_created, evt_channel_created, evt_thread_created, evt_reply_created,
}
use teams_mirror.Protocol.Replies.{
  encode_rpl_team, encode_rpl_channel, encode_rpl_thread, encode_rpl_reply, encode_evt_team_created,
  encode_evt_channel_created, encode_evt_thread_created, encode_evt_reply_created,
}
use teams_mirror.Packet.{status_packet}
use teams_mirror.Server.{
  Env, Server, Request, team_created, channel_created, thread_created, reply_created, log,
  queue_reply, queue_each, keys, keys_if,
}
use teams_mirror.Server.Uuid.{generate_unique}
use teams_mirror.Models.User.{User}
use teams_mirror.Models.User
use teams_mirror.Models.Thread.{Thread, add_reply}
use teams_mirror.Models.Thread
use teams_mirror.Models.Channel.{Channel, add_thread}
use teams_mirror.Models.Channel
use teams_mirror.Models.Team.{Team, is_user_subscribed, add_subscribed_user, add_channel}
use teams_mirror.Models.Team
use teams_mirror.Commands.Lookup.{team_has_uuid, channel_has_uuid, thread_has_uuid}

unfoldable pub is_channel_uuid_used : List Team → Bytes → Bool
is_channel_uuid_used teams channel_uuid =
    any_of (λ team. any_of (channel_has_uuid channel_uuid) team.channels) teams

unfoldable pub is_thread_uuid_used : List Team → Bytes → Bool
is_thread_uuid_used teams thread_uuid =
    any_of
      (λ team.
        any_of (λ channel. any_of (thread_has_uuid thread_uuid) channel.threads) team.channels)
      teams

unfoldable pub generate_unique_team_uuid : Env → Server → Option (Bytes × ℕ)
unfolding generate_unique
generate_unique_team_uuid env s =
    generate_unique env.attempts (λ c. any_of (team_has_uuid c) s.teams) env.draw s.draws

unfoldable pub generate_unique_channel_uuid : Env → Server → Option (Bytes × ℕ)
unfolding generate_unique is_channel_uuid_used
generate_unique_channel_uuid env s =
    generate_unique env.attempts (is_channel_uuid_used s.teams) env.draw s.draws

unfoldable pub generate_unique_thread_uuid : Env → Server → Option (Bytes × ℕ)
unfolding generate_unique is_thread_uuid_used
generate_unique_thread_uuid env s =
    generate_unique env.attempts (is_thread_uuid_used s.teams) env.draw s.draws

unfoldable pub queue_packet_to_team_subscribers : Team → Bytes → Server → Server
queue_packet_to_team_subscribers team packet s =
    queue_each (keys_if (λ uuid. is_user_subscribed uuid team) s.authenticated_users_by_fd) packet s

unfoldable pub queue_packet_to_loged_user : Bytes → Server → Server
queue_packet_to_loged_user packet s = queue_each (keys s.authenticated_users_by_fd) packet s

abbrev field : ℕ → Bytes → Bytes
field size source = copy_padded_string (zeroed size) source

unfoldable pub announce_team : Request → User → Team → Server → Server
unfolding copy_padded_string queue_packet_to_loged_user
announce_team r user team s =
    let uuid = field uuid_length (Team.get_uuid team) in
    let name = field max_name_length (Team.get_name team) in
    let description = field max_description_length (Team.get_description team) in
    queue_packet_to_loged_user
      (status_packet evt_team_created (
        encode_evt_team_created
          (record { team_uuid = uuid; team_name = name; team_description = description })))
      (queue_reply r rpl_created
        (encode_rpl_team
          (record { team_uuid = uuid; team_name = name; team_description = description }))
        (log (team_created (Team.get_uuid team) (Team.get_name team) (User.get_uuid user)) s))

unfoldable pub announce_channel : Request → Team → Bytes → Bytes → Bytes → Server → Server
unfolding copy_padded_string queue_packet_to_team_subscribers
announce_channel r team channel_uuid channel_name channel_description s =
    let uuid = field uuid_length channel_uuid in
    let name = field max_name_length channel_name in
    let description = field max_description_length channel_description in
    queue_packet_to_team_subscribers team
      (status_packet evt_channel_created (
        encode_evt_channel_created
          (record { channel_uuid = uuid; channel_name = name; channel_description = description })))
      (queue_reply r rpl_created
        (encode_rpl_channel
          (record { channel_uuid = uuid; channel_name = name; channel_description = description }))
        (log (channel_created (Team.get_uuid team) channel_uuid channel_name) s))

unfoldable pub announce_thread :
    Request → User → Team → Channel → Bytes → ℤ → Bytes → Bytes → Server → Server
unfolding copy_padded_string queue_packet_to_team_subscribers
announce_thread r user team channel thread_uuid now thread_title thread_body s =
    let uuid = field uuid_length thread_uuid in
    let author = field uuid_length (User.get_uuid user) in
    let title = field max_name_length thread_title in
    let body = field max_body_length thread_body in
    queue_packet_to_team_subscribers team
      (status_packet evt_thread_created (
        encode_evt_thread_created (record {
          thread_uuid = uuid;
          user_uuid = author;
          thread_timestamp = to_u64 now;
          thread_title = title;
          thread_body = body;
        })))
      (queue_reply r rpl_created
        (encode_rpl_thread (record {
          thread_uuid = uuid;
          user_uuid = author;
          thread_timestamp = to_u64 now;
          thread_title = title;
          thread_body = body;
        }))
        (log
          (thread_created (Channel.get_uuid channel) thread_uuid (User.get_uuid user) thread_title
            thread_body)
          s))

unfoldable pub announce_reply : Request → User → Team → Thread → ℤ → Bytes → Server → Server
unfolding copy_padded_string queue_packet_to_team_subscribers
announce_reply r user team thread now reply_body s =
    let author = field uuid_length (User.get_uuid user) in
    let uuid = field uuid_length (Thread.get_uuid thread) in
    let body = field max_body_length reply_body in
    queue_packet_to_team_subscribers team
      (status_packet evt_reply_created (
        encode_evt_reply_created (record {
          team_uuid = field uuid_length (Team.get_uuid team);
          thread_uuid = uuid;
          user_uuid = author;
          reply_body = body;
        })))
      (queue_reply r rpl_created
        (encode_rpl_reply (record {
          thread_uuid = uuid;
          user_uuid = author;
          reply_timestamp = to_u64 now;
          reply_body = body;
        }))
        (log (reply_created (Thread.get_uuid thread) (User.get_uuid user) reply_body) s))
