-- ===== src/Commands/Lookup.antt =====
-- The searches that the handlers share (server/commands/command_utils.cpp). A C++ reference to the element
-- found is the element, and a change through it is `update_if` with the same test.
use teams_mirror.Prelude.{
  Bool, true, false, not, ◌&&◌, ◌||◌, Option, List, if◌then◌else◌, same, is_empty, find_if, nat_eq,
  ◌>>=◌,
}
use teams_mirror.Bytes.{Bytes, copy_padded_string}
use teams_mirror.Map.{find}
use teams_mirror.Fields.{zeroed}
use teams_mirror.Protocol.Limits.{uuid_length, max_name_length}
use teams_mirror.Protocol.{StatusCode}
use teams_mirror.Protocol.Replies.{encode_evt_user_connection}
use teams_mirror.Packet.{status_packet}
use teams_mirror.Server.{Server, Request}
use teams_mirror.Models.User.{User}
use teams_mirror.Models.User
use teams_mirror.Models.Team.{Team}
use teams_mirror.Models.Team
use teams_mirror.Models.Channel.{Channel}
use teams_mirror.Models.Channel
use teams_mirror.Models.Thread.{Thread}
use teams_mirror.Models.Thread

abbrev pub user_has_name : Bytes → User → Bool
user_has_name user_name user = same (User.get_name user) user_name

abbrev pub user_has_uuid : Bytes → User → Bool
user_has_uuid user_uuid user = same (User.get_uuid user) user_uuid

abbrev pub team_has_uuid : Bytes → Team → Bool
team_has_uuid team_uuid team = same (Team.get_uuid team) team_uuid

abbrev pub channel_has_uuid : Bytes → Channel → Bool
channel_has_uuid channel_uuid channel = same (Channel.get_uuid channel) channel_uuid

abbrev pub thread_has_uuid : Bytes → Thread → Bool
thread_has_uuid thread_uuid thread = same (Thread.get_uuid thread) thread_uuid

unfoldable pub find_user_by_name : Bytes → List User → Option User
find_user_by_name user_name users = find_if (user_has_name user_name) users

unfoldable pub find_user_by_uuid : Bytes → List User → Option User
find_user_by_uuid user_uuid users = find_if (user_has_uuid user_uuid) users

unfoldable pub find_team_by_uuid : Bytes → List Team → Option Team
find_team_by_uuid team_uuid teams = find_if (team_has_uuid team_uuid) teams

unfoldable pub find_channel_by_uuid : Bytes → Team → Option Channel
find_channel_by_uuid channel_uuid team = find_if (channel_has_uuid channel_uuid) team.channels

unfoldable pub find_thread_by_uuid : Bytes → Channel → Option Thread
find_thread_by_uuid thread_uuid channel = find_if (thread_has_uuid thread_uuid) channel.threads

unfoldable pub get_authenticated_user : Request → Server → Option User
unfolding find_user_by_uuid
get_authenticated_user r s =
    find r.client_fd s.authenticated_users_by_fd >>= λ uuid. find_user_by_uuid uuid s.users

unfoldable pub is_context_combination_valid : Bytes → Bytes → Bytes → Bool
is_context_combination_valid team_uuid channel_uuid thread_uuid =
    if is_empty team_uuid && (not (is_empty channel_uuid) || not (is_empty thread_uuid))
    then false
    else if is_empty channel_uuid && not (is_empty thread_uuid)
    then false
    else true

unfoldable pub build_user_connection_event_packet : StatusCode → Bytes → Bytes → Bytes
unfolding encode_evt_user_connection copy_padded_string status_packet
build_user_connection_event_packet event_code user_uuid user_name = status_packet event_code (
    encode_evt_user_connection (record {
      user_uuid = copy_padded_string (zeroed uuid_length) user_uuid;
      user_name = copy_padded_string (zeroed max_name_length) user_name;
    }))
