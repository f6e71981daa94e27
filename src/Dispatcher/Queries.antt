-- ===== src/Dispatcher/Queries.antt =====
-- The requests that only read: what they may change.
use teams_mirror.Prelude.{
  ◌≡◌, refl, ◌∙◌, ap, Bool, true, false, not, ◌==◌, Option, none, some, List, [], ◌++◌,
  if◌then◌else◌, nat_eq, inl, inr, Bool-cases, Option-cases, is_empty,
}
use teams_mirror.Bytes.{Bytes, extract_fixed_string}
use teams_mirror.Map.{find, contains}
use teams_mirror.Protocol.Requests.{decode_req_target_user}
use teams_mirror.Protocol.{
  StatusCode, CommandId, cmd_login, cmd_logout, cmd_users, cmd_user_info, cmd_send, cmd_messages,
  cmd_subscribe, cmd_unsubscribe, cmd_subscribed_list, cmd_use, cmd_create, cmd_list, cmd_info,
  rpl_ok,
}
use teams_mirror.Packet.{status_packet}
use teams_mirror.Server.{Env, Server, Request, queue_packet, queue_status, queue_reply}
use teams_mirror.Server.Queueing.{queue_packet-append}
use teams_mirror.Models.User.{User}
use teams_mirror.Models.Message.{Message}
use teams_mirror.Models.Team.{Team}
use teams_mirror.Commands.Lookup.{find_user_by_uuid, get_authenticated_user, find_team_by_uuid}
use teams_mirror.Commands.UserQueries.{
  queue_user, queue_users, handle_users_command, handle_user_command,
}
use teams_mirror.Commands.Subscription.{
  queue_subscribed_teams, queue_subscribed_users, handle_subscribed_list_command, with_team,
  parse_team_uuid_from_payload,
}
use teams_mirror.Commands.PrivateMessages.{
  queue_messages, handle_messages_command, parse_messages_payload,
}
use teams_mirror.Commands.Navigation.{
  Target, at_root, at_team, at_channel, at_thread, refused, client_target,
}
use teams_mirror.Commands.Listing.{handle_list_command, list_target}
use teams_mirror.Commands.Info.{info_target, handle_info_command}
use teams_mirror.Commands.Answers.{
  queue_users-packets, queue_messages-packets, queue_subscribed_teams-packets,
  queue_subscribed_users-packets,
}
use teams_mirror.Commands.ListAnswers.{list_target-listed}
use teams_mirror.Dispatcher.{run_handler}

-- Bytes were appended to the outgoing buffer of the client that asked, and nothing else changed.
abbrev pub Answers : Request → Server → Server → Type 0
Answers r s s' = (bytes : Bytes) × (s' ≡ queue_packet r.client_fd bytes s)

-- The commands that only read.
abbrev pub IsQuery : CommandId → Type 0
IsQuery cmd_users = Unit
IsQuery cmd_user_info = Unit
IsQuery cmd_messages = Unit
IsQuery cmd_subscribed_list = Unit
IsQuery cmd_list = Unit
IsQuery cmd_info = Unit
IsQuery _ = ⊥

module _ (r : Request) (s : Server) where
  Answers-status : (status : StatusCode) → Answers r s (queue_status r status s)
  unfolding queue_status
  Answers-status status = (status_packet status [], refl)

  Answers-reply : (status : StatusCode) (p : Bytes) → Answers r s (queue_reply r status p s)
  unfolding queue_reply
  Answers-reply status p = (status_packet status p, refl)

  Answers-finish : (s' : Server) → Answers r s s' → Answers r s (queue_status r rpl_ok s')
  unfolding queue_status
  Answers-finish s' (bytes, e) = (
    bytes ++ status_packet rpl_ok [],
    ap (queue_packet r.client_fd (status_packet rpl_ok [])) e
        ∙ queue_packet-append r.client_fd bytes (status_packet rpl_ok []) s,
  )

  Answers-if :
      (b : Bool) (x y : Server) → Answers r s x → Answers r s y → Answers r s (if b then x else y)
  Answers-if true x y hx hy = hx
  Answers-if false x y hx hy = hy

  Answers-option {ℓ} :
      {A : Type ℓ} (o : Option A) (x : Server) (f : A → Server)
      → Answers r s x
      → ((a : A) → Answers r s (f a))
      → Answers r s (elim o [ none ↦ x | some a ↦ f a ])
  Answers-option none x f hx hf = hx
  Answers-option (some a) x f hx hf = hf a

  Answers-users : (users : List User) → Answers r s (queue_users r users s)
  Answers-users users = (_, queue_users-packets r users s)

  Answers-messages : (msgs : List Message) → Answers r s (queue_messages r msgs s)
  Answers-messages msgs = (_, queue_messages-packets r msgs s)

  Answers-teams :
      (user : User) (teams : List Team) → Answers r s (queue_subscribed_teams r user teams s)
  Answers-teams user teams = (_, queue_subscribed_teams-packets r user teams s)

  Answers-members :
      (users : List User) (uuids : List Bytes)
      → Answers r s (queue_subscribed_users r users uuids s)
  Answers-members users uuids = (_, queue_subscribed_users-packets r users uuids s)

  Answers-listed : (t : Target) → Answers r s (list_target r s t)
  Answers-listed t = (_, list_target-listed r s t)

  Answers-info : (user : User) (t : Target) → Answers r s (info_target r user s t)
  unfolding info_target
  Answers-info user at_root = Answers-reply _ _
  Answers-info user (at_team team) = Answers-reply _ _
  Answers-info user (at_channel channel) = Answers-reply _ _
  Answers-info user (at_thread thread) = Answers-reply _ _
  Answers-info user (refused status) = Answers-status status

ruleset answer_rules = (
  Answers-status, Answers-reply, Answers-finish, Answers-if, Answers-option, Answers-users,
  Answers-messages, Answers-teams, Answers-members, Answers-listed, Answers-info,
)

users-Answers : (r : Request) (s : Server) → Answers r s (handle_users_command r s)
unfolding handle_users_command
users-Answers r s = search answer_rules depth 9

queue_user-Answers :
    (r : Request) (s : Server) (uuid : Bytes) (o : Option User)
    → Answers r s (queue_user r uuid o s)
queue_user-Answers r s uuid none = Answers-reply r s _ _
queue_user-Answers r s uuid (some user) = Answers-reply r s _ _

user-Answers : (r : Request) (s : Server) → Answers r s (handle_user_command r s)
unfolding handle_user_command
user-Answers r s = elim (Bool-cases (not (r.payload_size == 37))) [
  | inl e ↦ rw e (Answers-status r s _)
  | inr e ↦ rw e (elim (Bool-cases (not (contains r.client_fd s.authenticated_users_by_fd))) [
    | inl e ↦ rw e (Answers-status r s _)
    | inr e ↦
        rw e
          (elim (Option-cases
            (extract_fixed_string (decode_req_target_user r.payload_data).target_uuid)) [
              | inl e ↦ rw e (Answers-status r s _)
              | inr (uuid, e) ↦ rw e (
                  Answers-if r s (is_empty uuid) _ _ (Answers-status r s _)
                    (queue_user-Answers r s uuid (find_user_by_uuid uuid s.users)))
            ])
  ])
]

messages-Answers :
    (env : Env) (r : Request) (s : Server) → Answers r s (handle_messages_command env r s)
unfolding handle_messages_command
messages-Answers env r s = elim (Bool-cases (not (r.payload_size == 37))) [
  | inl e ↦ rw e (Answers-status r s _)
  | inr e ↦ rw e (elim (Option-cases (find r.client_fd s.authenticated_users_by_fd)) [
    | inl e ↦ rw e (Answers-status r s _)
    | inr (client, e) ↦ rw e (elim (Option-cases (parse_messages_payload r)) [
      | inl e ↦ rw e (Answers-status r s _)
      | inr (target, e) ↦ rw e (elim (Option-cases (find_user_by_uuid target s.users)) [
        | inl e ↦ rw e (Answers-status r s _)
        | inr (user, e) ↦ rw e (Answers-finish r s _ (Answers-messages r s _))
      ])
    ])
  ])
]

members-Answers :
    (r : Request) (s : Server) (user : User)
    → get_authenticated_user r s ≡ some user
    → Answers r s (
        with_team r s (λ _ _ team.
          queue_status r rpl_ok (queue_subscribed_users r s.users team.subscribed_user_uuids s)))
members-Answers r s user e =
    rw (e, with_team)
      (elim (Option-cases (parse_team_uuid_from_payload r)) [
        | inl e ↦ rw e (Answers-status r s _)
        | inr (uuid, e) ↦ rw e (elim (Option-cases (find_team_by_uuid uuid s.teams)) [
          | inl e ↦ rw e (Answers-status r s _)
          | inr (team, e) ↦ rw e (Answers-finish r s _ (Answers-members r s _ _))
        ])
      ])

subscribed-Answers : (r : Request) (s : Server) → Answers r s (handle_subscribed_list_command r s)
unfolding handle_subscribed_list_command
subscribed-Answers r s = elim (Option-cases (get_authenticated_user r s)) [
  | inl e ↦ rw (e, handle_subscribed_list_command) (Answers-status r s _)
  | inr (user, e) ↦
      rw (e, handle_subscribed_list_command)
        (elim (Bool-cases (r.payload_size == 0)) [
          | inl z ↦ rw z (Answers-finish r s _ (Answers-teams r s user s.teams))
          | inr z ↦ rw z (members-Answers r s user e)
        ])
]

list-Answers : (r : Request) (s : Server) → Answers r s (handle_list_command r s)
unfolding handle_list_command
list-Answers r s = elim (Bool-cases (not (r.payload_size == 0))) [
  | inl e ↦ rw e (Answers-status r s _)
  | inr e ↦ rw e (elim (Option-cases (get_authenticated_user r s)) [
    | inl e ↦ rw e (Answers-status r s _)
    | inr (user, e) ↦ rw e (Answers-listed r s (client_target r user s))
  ])
]

info-Answers : (r : Request) (s : Server) → Answers r s (handle_info_command r s)
unfolding handle_info_command
info-Answers r s = elim (Bool-cases (not (r.payload_size == 0))) [
  | inl e ↦ rw e (Answers-status r s _)
  | inr e ↦ rw e (elim (Option-cases (get_authenticated_user r s)) [
    | inl e ↦ rw e (Answers-status r s _)
    | inr (user, e) ↦ rw e (Answers-info r s user (client_target r user s))
  ])
]

-- A query, whatever its payload and whoever asks, always gives a result, and that is the server as it was but
-- for bytes appended to the outgoing buffer of the client that asked.
pub query-Answers :
    (env : Env) (c : CommandId) (r : Request) (s : Server)
    → IsQuery c
    → (s' : Server) × (run_handler env c r s ≡ some s') × Answers r s s'
unfolding run_handler
query-Answers env cmd_users r s h = (_, refl, users-Answers r s)
query-Answers env cmd_user_info r s h = (_, refl, user-Answers r s)
query-Answers env cmd_messages r s h = (_, refl, messages-Answers env r s)
query-Answers env cmd_subscribed_list r s h = (_, refl, subscribed-Answers r s)
query-Answers env cmd_list r s h = (_, refl, list-Answers r s)
query-Answers env cmd_info r s h = (_, refl, info-Answers r s)
query-Answers env cmd_login r s h = elim h [ ]
query-Answers env cmd_logout r s h = elim h [ ]
query-Answers env cmd_send r s h = elim h [ ]
query-Answers env cmd_subscribe r s h = elim h [ ]
query-Answers env cmd_unsubscribe r s h = elim h [ ]
query-Answers env cmd_use r s h = elim h [ ]
query-Answers env cmd_create r s h = elim h [ ]
