-- ===== src/Protocol.antt =====
-- common/protocol.hpp: the command identifiers and status codes; the payloads are in the modules below.
pub mod Limits
pub mod Integers
pub mod Requests
pub mod Replies
use teams_mirror.Prelude.{ℕ}

pub data CommandId : Type 0 where
  cmd_login cmd_logout cmd_users cmd_user_info cmd_send cmd_messages : CommandId
  cmd_subscribe cmd_unsubscribe cmd_subscribed_list cmd_use cmd_create cmd_list cmd_info : CommandId

unfoldable pub command_code : CommandId → ℕ
command_code cmd_login = 10
command_code cmd_logout = 11
command_code cmd_users = 20
command_code cmd_user_info = 21
command_code cmd_send = 30
command_code cmd_messages = 31
command_code cmd_subscribe = 40
command_code cmd_unsubscribe = 41
command_code cmd_subscribed_list = 42
command_code cmd_use = 50
command_code cmd_create = 60
command_code cmd_list = 70
command_code cmd_info = 80

pub data StatusCode : Type 0 where
  rpl_ok rpl_created rpl_users_list rpl_user_info rpl_messages_list rpl_teams_list : StatusCode
  rpl_channels_list rpl_threads_list rpl_replies_list rpl_subscribed_list : StatusCode
  err_bad_request err_unauthorized err_forbidden err_not_found err_already_exist : StatusCode
  err_server_internal : StatusCode
  evt_logged_in evt_logged_out evt_private_msg_rcvd evt_team_created evt_channel_created :
      StatusCode
  evt_thread_created evt_reply_created : StatusCode

unfoldable pub status_code : StatusCode → ℕ
status_code rpl_ok = 200
status_code rpl_created = 201
status_code rpl_users_list = 202
status_code rpl_user_info = 203
status_code rpl_messages_list = 204
status_code rpl_teams_list = 205
status_code rpl_channels_list = 206
status_code rpl_threads_list = 207
status_code rpl_replies_list = 208
status_code rpl_subscribed_list = 209
status_code err_bad_request = 400
status_code err_unauthorized = 401
status_code err_forbidden = 403
status_code err_not_found = 404
status_code err_already_exist = 409
status_code err_server_internal = 500
status_code evt_logged_in = 600
status_code evt_logged_out = 601
status_code evt_private_msg_rcvd = 602
status_code evt_team_created = 603
status_code evt_channel_created = 604
status_code evt_thread_created = 605
status_code evt_reply_created = 606
