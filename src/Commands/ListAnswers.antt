-- ===== src/Commands/ListAnswers.antt =====
-- The answers of the listing handlers, and that queries change nothing but the answer's buffer.
use teams_mirror.Prelude.{◌==◌, ◌≡◌, refl, ◌∙◌, ap, true, some, List, [], ◌∷◌, nat_eq}
use teams_mirror.Bytes.{Bytes}
use teams_mirror.Map.{find, contains}
use teams_mirror.Protocol.{
  StatusCode, rpl_ok, rpl_users_list, rpl_messages_list, rpl_teams_list, rpl_channels_list,
  rpl_threads_list, rpl_replies_list,
}
use teams_mirror.Protocol.Replies.{
  encode_rpl_user, encode_rpl_message, encode_rpl_team, encode_rpl_channel, encode_rpl_thread,
  encode_rpl_reply,
}
use teams_mirror.Protocol.Requests.{size_req_target_user}
use teams_mirror.Packet.{status_packet}
use teams_mirror.Server.{Env, Server, Request, queue_packet, queue_status}
use teams_mirror.Server.Queueing.{queue_packet-append}
use teams_mirror.Models.User.{User}
use teams_mirror.Commands.Lookup.{find_user_by_uuid}
use teams_mirror.Commands.UserQueries.{build_user_payload, handle_users_command}
use teams_mirror.Commands.Subscription.{team_payload}
use teams_mirror.Commands.PrivateMessages.{
  message_payload, conversation, parse_messages_payload, handle_messages_command,
}
use teams_mirror.Commands.Navigation.{Target, at_root, at_team, at_channel, at_thread, refused}
use teams_mirror.Commands.Listing.{
  payloads_of, queue_payload_array, channel_payload, thread_payload, reply_payload,
  queue_teams_list, queue_channels_list, queue_threads_list, queue_replies_list, list_target,
}
use teams_mirror.Commands.Answers.{
  packets, list_answer, payloads, queue_payloads-packets, queue_users-packets,
  queue_messages-packets,
}

-- What CMD_LIST shows of a target.
abbrev pub listed : Server → Target → Bytes
listed s at_root =
    list_answer rpl_teams_list (payloads (λ t. encode_rpl_team (team_payload t)) s.teams)
listed s (at_team team) =
    list_answer rpl_channels_list
      (payloads (λ c. encode_rpl_channel (channel_payload c)) team.channels)
listed s (at_channel channel) =
    list_answer rpl_threads_list
      (payloads (λ t. encode_rpl_thread (thread_payload t)) channel.threads)
listed s (at_thread thread) =
    list_answer rpl_replies_list
      (payloads (λ m. encode_rpl_reply (reply_payload thread m)) thread.replies)
listed s (refused status) = status_packet status []

module _ (r : Request) where
  -- The final RPL_OK behind the packets of a list.
  finish :
      (status : StatusCode) (ps : List Bytes) (s s' : Server)
      → s' ≡ queue_packet r.client_fd (packets status ps) s
      → queue_status r rpl_ok s' ≡ queue_packet r.client_fd (list_answer status ps) s
  unfolding queue_status
  finish status ps s s' h =
      ap (queue_packet r.client_fd (status_packet rpl_ok [])) h
      ∙ queue_packet-append r.client_fd (packets status ps) (status_packet rpl_ok []) s

  payloads_of-payloads {ℓ} :
      {A : Type ℓ} (f : A → Bytes) (xs : List A) → payloads_of f xs ≡ payloads f xs
  unfolding payloads_of
  payloads_of-payloads f [] = refl
  payloads_of-payloads f (x ∷ xs) = ap (◌∷◌ (f x)) (payloads_of-payloads f xs)

  array_answer {ℓ} :
      {A : Type ℓ} (status : StatusCode) (f : A → Bytes) (xs : List A) (s : Server)
      → queue_payload_array r status (payloads_of f xs) s
        ≡ queue_packet r.client_fd (list_answer status (payloads f xs)) s
  unfolding queue_payload_array
  array_answer status f xs s =
      rw (payloads_of-payloads f xs)
        (finish status _ s _ (queue_payloads-packets r status (payloads f xs) s))

  -- CMD_USERS of a client that is logged in sends an entry for every user, in their order, and RPL_OK.
  pub handle_users-answer :
      (s : Server)
      → r.payload_size ≡ 0
      → contains r.client_fd s.authenticated_users_by_fd ≡ true
      → handle_users_command r s
        ≡ queue_packet r.client_fd
            (list_answer rpl_users_list
              (payloads (λ u. encode_rpl_user (build_user_payload u)) s.users))
            s
  unfolding handle_users_command
  handle_users-answer s size logged =
      simp (size, logged) (finish rpl_users_list _ s _ (queue_users-packets r s.users s))

  pub list_target-listed :
      (s : Server) (t : Target) → list_target r s t ≡ queue_packet r.client_fd (listed s t) s
  unfolding list_target queue_status
  list_target-listed s at_root = unfold queue_teams_list in array_answer rpl_teams_list _ s.teams s
  list_target-listed s (at_team team) =
      unfold queue_channels_list in array_answer rpl_channels_list _ team.channels s
  list_target-listed s (at_channel channel) =
      unfold queue_threads_list in array_answer rpl_threads_list _ channel.threads s
  list_target-listed s (at_thread thread) =
      unfold queue_replies_list in array_answer rpl_replies_list _ thread.replies s
  list_target-listed s (refused status) = refl

  pub messages_answer :
      (env : Env) (s : Server) (client target : Bytes) (user : User)
      → (r.payload_size == size_req_target_user) ≡ true
      → find r.client_fd s.authenticated_users_by_fd ≡ some client
      → parse_messages_payload r ≡ some target
      → find_user_by_uuid target s.users ≡ some user
      → handle_messages_command env r s
        ≡ queue_packet r.client_fd
            (list_answer rpl_messages_list (
              payloads
                (λ m. encode_rpl_message (message_payload m))
                (conversation env client target s.messages)))
            s
  unfolding handle_messages_command
  messages_answer env s client target user size logged parsed known =
      simp (size, logged, parsed, known)
        (finish rpl_messages_list _ s _ (queue_messages-packets r _ s))
