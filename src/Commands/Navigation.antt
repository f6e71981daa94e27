-- ===== src/Commands/Navigation.antt =====
-- What the context of a client names: the part that handleListCommand and handleInfoCommand share, line by
-- line (server/commands/list_command.cpp, info_command.cpp).
use teams_mirror.Prelude.{not, none, some, List, if◌then◌else◌, is_empty}
use teams_mirror.Bytes.{Bytes}
use teams_mirror.Protocol.{StatusCode, err_bad_request, err_unauthorized, err_not_found}
use teams_mirror.Clients.{get_context_team_uuid, get_context_channel_uuid, get_context_thread_uuid}
use teams_mirror.Server.{Server, Request}
use teams_mirror.Models.User.{User}
use teams_mirror.Models.User
use teams_mirror.Models.Thread.{Thread}
use teams_mirror.Models.Channel.{Channel}
use teams_mirror.Models.Team.{Team, is_user_subscribed}
use teams_mirror.Commands.Lookup.{
  find_team_by_uuid, find_channel_by_uuid, find_thread_by_uuid, is_context_combination_valid,
}

-- Where the handler's last step is made, or the status that it answers.
pub data Target : Type 0 where
  at_root : Target
  at_team : Team → Target
  at_channel : Channel → Target
  at_thread : Thread → Target
  refused : StatusCode → Target

unfoldable pub channel_target : Bytes → Channel → Target
channel_target thread_uuid channel =
    if is_empty thread_uuid
    then at_channel channel
    else elim (find_thread_by_uuid thread_uuid channel) [
      | none ↦ refused err_not_found
      | some thread ↦ at_thread thread
    ]

unfoldable pub team_target : Bytes → Bytes → User → Team → Target
unfolding channel_target
team_target channel_uuid thread_uuid user team =
    if not (is_user_subscribed (User.get_uuid user) team)
    then refused err_unauthorized
    else if is_empty channel_uuid
    then at_team team
    else elim (find_channel_by_uuid channel_uuid team) [
      | none ↦ refused err_not_found
      | some channel ↦ channel_target thread_uuid channel
    ]

unfoldable pub navigate : Bytes → Bytes → Bytes → User → List Team → Target
unfolding team_target
navigate team_uuid channel_uuid thread_uuid user teams =
    if not (is_context_combination_valid team_uuid channel_uuid thread_uuid)
    then refused err_bad_request
    else if is_empty team_uuid
    then at_root
    else elim (find_team_by_uuid team_uuid teams) [
      | none ↦ refused err_not_found
      | some team ↦ team_target channel_uuid thread_uuid user team
    ]

unfoldable pub client_target : Request → User → Server → Target
client_target r user s =
    navigate (get_context_team_uuid r.client_fd s.clients)
      (get_context_channel_uuid r.client_fd s.clients)
      (get_context_thread_uuid r.client_fd s.clients) user s.teams
