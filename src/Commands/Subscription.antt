-- ===== src/Commands/Subscription.antt =====
-- server/commands/subscription_commands.cpp
pub mod Membership
use teams_mirror.Prelude.{
  ◌==◌, Bool, true, false, not, Option, none, some, List, [], ◌∷◌, if◌then◌else◌, ◌>>=◌, update_if,
}
use teams_mirror.Bytes.{Bytes, view, copy_padded_string, extract_fixed_string}
use teams_mirror.Fields.{zeroed}
use teams_mirror.Protocol.Limits.{uuid_length, max_name_length, max_description_length}
use teams_mirror.Protocol.{
  rpl_ok, rpl_users_list, rpl_subscribed_list, err_bad_request, err_unauthorized, err_not_found,
}
use teams_mirror.Protocol.Requests.{size_req_team_target, decode_req_team_target}
use teams_mirror.Protocol.Replies.{PayloadRplTeam, encode_rpl_team, encode_rpl_user}
use teams_mirror.Server.{
  Server, Request, user_subscribed, user_unsubscribed, log, queue_status, queue_reply,
}
use teams_mirror.Server.Uuid.{is_uuid_format_valid}
use teams_mirror.Models.User.{User}
use teams_mirror.Models.User
use teams_mirror.Models.Team.{Team, is_user_subscribed, add_subscribed_user, remove_subscribed_user}
use teams_mirror.Models.Team
use teams_mirror.Commands.Lookup.{
  team_has_uuid, find_user_by_uuid, find_team_by_uuid, get_authenticated_user,
}
use teams_mirror.Commands.UserQueries.{build_user_payload}

unfoldable pub queue_user_info : Request → User → Server → Server
queue_user_info r user s =
    queue_reply r rpl_users_list (encode_rpl_user (build_user_payload user)) s

-- `none` where the code answers ERR_BAD_REQUEST.
unfoldable pub parse_team_uuid_from_payload : Request → Option Bytes
unfolding decode_req_team_target extract_fixed_string
parse_team_uuid_from_payload r = if not (r.payload_size == size_req_team_target) then none else (do
  team_uuid ← extract_fixed_string (decode_req_team_target r.payload_data).team_uuid
  if is_uuid_format_valid team_uuid then some team_uuid else none)

unfoldable pub team_payload : Team → PayloadRplTeam
unfolding copy_padded_string
team_payload team = record {
  team_uuid = copy_padded_string (zeroed uuid_length) (Team.get_uuid team);
  team_name = copy_padded_string (zeroed max_name_length) (Team.get_name team);
  team_description = copy_padded_string (zeroed max_description_length) (Team.get_description team);
}

unfoldable pub queue_subscribed_teams : Request → User → List Team → Server → Server
queue_subscribed_teams r user [] s = s
queue_subscribed_teams r user (team ∷ teams) s = queue_subscribed_teams r user teams (
    if not (is_user_subscribed (User.get_uuid user) team)
    then s
    else queue_reply r rpl_subscribed_list (encode_rpl_team (team_payload team)) s)

unfoldable pub queue_subscribed_users : Request → List User → List Bytes → Server → Server
queue_subscribed_users r users [] s = s
queue_subscribed_users r users (stored ∷ rest) s =
    queue_subscribed_users r users rest (elim (find_user_by_uuid (view stored) users) [
      | none ↦ s
      | some user ↦ queue_user_info r user s
    ])

-- What the three handlers do once the user, the identifier and the team are known.
abbrev pub with_team : Request → Server → (User → Bytes → Team → Server) → Server
with_team r s act = elim (get_authenticated_user r s) [
  | none ↦ queue_status r err_unauthorized s
  | some user ↦ elim (parse_team_uuid_from_payload r) [
    | none ↦ queue_status r err_bad_request s
    | some team_uuid ↦ elim (find_team_by_uuid team_uuid s.teams) [
      | none ↦ queue_status r err_not_found s
      | some team ↦ act user team_uuid team
    ]
  ]
]

abbrev change_team : Bytes → (Team → Team) → Server → Server
change_team team_uuid f s = record s { teams = update_if (team_has_uuid team_uuid) f s.teams }

unfoldable pub subscribe : Request → Server → User → Bytes → Team → Server
subscribe r s user team_uuid team =
    if is_user_subscribed (User.get_uuid user) team
    then queue_status r rpl_ok s
    else queue_user_info r user (
        log (user_subscribed (Team.get_uuid team) (User.get_uuid user))
          (change_team team_uuid (add_subscribed_user (User.get_uuid user)) s))

unfoldable pub handle_subscribe_command : Request → Server → Server
unfolding subscribe
handle_subscribe_command r s = with_team r s (subscribe r s)

unfoldable pub unsubscribe : Request → Server → User → Bytes → Team → Server
unsubscribe r s user team_uuid team =
    if not (remove_subscribed_user (User.get_uuid user) team).1
    then queue_status r rpl_ok s
    else queue_user_info r user (
        log (user_unsubscribed (Team.get_uuid team) (User.get_uuid user))
          (change_team team_uuid (λ t. (remove_subscribed_user (User.get_uuid user) t).0) s))

unfoldable pub handle_unsubscribe_command : Request → Server → Server
unfolding unsubscribe
handle_unsubscribe_command r s = with_team r s (unsubscribe r s)

unfoldable pub handle_subscribed_list_command : Request → Server → Server
handle_subscribed_list_command r s = elim (get_authenticated_user r s) [
  | none ↦ queue_status r err_unauthorized s
  | some user ↦
      if r.payload_size == 0
      then queue_status r rpl_ok (queue_subscribed_teams r user s.teams s)
      else with_team r s (λ _ _ team.
        queue_status r rpl_ok (queue_subscribed_users r s.users team.subscribed_user_uuids s))
]
