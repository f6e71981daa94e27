-- ===== src/Commands/Info.antt =====
-- server/commands/info_command.cpp
use teams_mirror.Prelude.{◌==◌, not, none, some, if◌then◌else◌}
use teams_mirror.Protocol.{
  rpl_user_info, rpl_teams_list, rpl_channels_list, rpl_threads_list, err_bad_request,
  err_unauthorized,
}
use teams_mirror.Protocol.Replies.{
  encode_rpl_user, encode_rpl_team, encode_rpl_channel, encode_rpl_thread,
}
use teams_mirror.Server.{Server, Request, queue_status, queue_reply}
use teams_mirror.Models.User.{User}
use teams_mirror.Commands.Lookup.{get_authenticated_user}
use teams_mirror.Commands.UserQueries.{build_user_payload}
use teams_mirror.Commands.Subscription.{team_payload}
use teams_mirror.Commands.Listing.{channel_payload, thread_payload}
use teams_mirror.Commands.Navigation.{
  Target, at_root, at_team, at_channel, at_thread, refused, client_target,
}

unfoldable pub info_target : Request → User → Server → Target → Server
info_target r user s at_root =
    queue_reply r rpl_user_info (encode_rpl_user (build_user_payload user)) s
info_target r user s (at_team team) =
    queue_reply r rpl_teams_list (encode_rpl_team (team_payload team)) s
info_target r user s (at_channel channel) =
    queue_reply r rpl_channels_list (encode_rpl_channel (channel_payload channel)) s
info_target r user s (at_thread thread) =
    queue_reply r rpl_threads_list (encode_rpl_thread (thread_payload thread)) s
info_target r user s (refused status) = queue_status r status s

unfoldable pub handle_info_command : Request → Server → Server
unfolding info_target
handle_info_command r s =
    if not (r.payload_size == 0)
    then queue_status r err_bad_request s
    else elim (get_authenticated_user r s) [
      | none ↦ queue_status r err_unauthorized s
      | some user ↦ info_target r user s (client_target r user s)
    ]
