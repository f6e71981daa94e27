-- ===== src/Commands/Create.antt =====
-- server/commands/create_command.cpp: creating teams, channels, threads and replies. Where the search for an
-- unused identifier runs out of attempts, the handler gives `none`.
pub mod Outcome
pub mod Members
use teams_mirror.Prelude.{
  ℕ, suc, Bool, true, false, not, ◌&&◌, ◌||◌, Option, none, some, List, [], ◌∷◌, ◌++◌,
  if◌then◌else◌, same, is_empty, any_of, update_if,
}
use teams_mirror.Prelude.Int.{ℤ, to_u64}
use teams_mirror.Bytes.{Bytes, copy_padded_string}
use teams_mirror.Fields.{zeroed}
use teams_mirror.Protocol.Limits.{
  uuid_length, max_name_length, max_description_length, max_body_length,
}
use teams_mirror.Protocol.{
  StatusCode, rpl_created, err_bad_request, err_unauthorized, err_not_found, err_already_exist,
  evt_team_created, evt_channel_created, evt_thread_created, evt_reply_created,
}
use teams_mirror.Protocol.Replies.{
  encode_rpl_team, encode_rpl_channel, encode_rpl_thread, encode_rpl_reply, encode_evt_team_created,
  encode_evt_channel_created, encode_evt_thread_created, encode_evt_reply_created,
}
use teams_mirror.Packet.{status_packet}
use teams_mirror.Clients.{get_context_team_uuid, get_context_channel_uuid, get_context_thread_uuid}
use teams_mirror.Server.{
  Env, Server, Request, team_created, channel_created, thread_created, reply_created, log,
  queue_status, queue_reply, queue_each, keys, keys_if,
}
use teams_mirror.Server.Uuid.{generate_uuid, generate_unique}
use teams_mirror.Models.User.{User}
use teams_mirror.Models.User
use teams_mirror.Models.Message.{Message}
use teams_mirror.Models.Message
use teams_mirror.Models.Thread.{Thread, add_reply}
use teams_mirror.Models.Thread
use teams_mirror.Models.Channel.{Channel, add_thread}
use teams_mirror.Models.Channel
use teams_mirror.Models.Team.{Team, is_user_subscribed, add_subscribed_user, add_channel}
use teams_mirror.Models.Team
use teams_mirror.Commands.Lookup.{
  team_has_uuid, channel_has_uuid, thread_has_uuid, find_team_by_uuid, find_channel_by_uuid,
  find_thread_by_uuid, get_authenticated_user,
}
use teams_mirror.Commands.CreateRequest.{
  parse_create_team_payload, parse_create_channel_payload, parse_create_thread_payload,
  parse_create_reply_payload,
}
use teams_mirror.Commands.CreateAnswers.{
  announce_channel, announce_reply, announce_team, announce_thread, generate_unique_channel_uuid,
  generate_unique_team_uuid, generate_unique_thread_uuid, queue_packet_to_loged_user,
  queue_packet_to_team_subscribers,
}

-- The team that is stored, with its creator subscribed.
unfoldable pub new_team : Bytes → Bytes → Bytes → User → Team
new_team team_uuid team_name team_description user =
    add_subscribed_user (User.get_uuid user) (Team.make team_uuid team_name team_description)

abbrev pub store_team : Team → ℕ → Server → Server
store_team team draws s = record s { teams = s.teams ++ team ∷ []; draws = draws }

unfoldable pub handle_create_team : Env → Request → User → Server → Option Server
unfolding new_team announce_team generate_unique_team_uuid
handle_create_team env r user s = elim (parse_create_team_payload r) [
  | none ↦ some (queue_status r err_bad_request s)
  | some (name, description) ↦
      if any_of (λ team. same (Team.get_name team) name) s.teams
      then some (queue_status r err_already_exist s)
      else elim (generate_unique_team_uuid env s) [
        | none ↦ none
        | some (uuid, draws) ↦
            let team = new_team uuid name description user in
            some (announce_team r user team (store_team team draws s))
      ]
]

-- A change of the team, or of one of its channels or threads, through the references that were found.
unfoldable pub change_team : Bytes → (Team → Team) → Server → Server
change_team team_uuid f s = record s { teams = update_if (team_has_uuid team_uuid) f s.teams }

unfoldable pub change_channel : Bytes → (Channel → Channel) → Team → Team
change_channel channel_uuid f team = record team {
  channels = update_if (channel_has_uuid channel_uuid) f team.channels;
}

unfoldable pub change_thread : Bytes → (Thread → Thread) → Channel → Channel
change_thread thread_uuid f channel = record channel {
  threads = update_if (thread_has_uuid thread_uuid) f channel.threads;
}

unfoldable pub create_channel_in :
    Env → Request → User → Bytes → Bytes → Bytes → Team → Server → Option Server
unfolding announce_channel generate_unique_channel_uuid change_team
create_channel_in env r user team_uuid name description team s =
    if not (is_user_subscribed (User.get_uuid user) team)
    then some (queue_status r err_unauthorized s)
    else if any_of (λ channel. same (Channel.get_name channel) name) team.channels
    then some (queue_status r err_already_exist s)
    else elim (generate_unique_channel_uuid env s) [
      | none ↦ none
      | some (uuid, draws) ↦
          let channel = Channel.make uuid name description in
          some (
            announce_channel r (add_channel channel team) uuid name description
              (change_team team_uuid (add_channel channel) (record s { draws = draws })))
    ]

unfoldable pub handle_create_channel : Env → Request → User → Server → Option Server
unfolding create_channel_in
handle_create_channel env r user s = elim (parse_create_channel_payload r) [
  | none ↦ some (queue_status r err_bad_request s)
  | some (name, description) ↦
      let team_uuid = get_context_team_uuid r.client_fd s.clients in
      elim (find_team_by_uuid team_uuid s.teams) [
        | none ↦ some (queue_status r err_not_found s)
        | some team ↦ create_channel_in env r user team_uuid name description team s
      ]
]

-- The team and the channel of the context, or the status that is answered.
pub data Resolved : Type 0 where
  found : Team → Channel → Resolved
  refused : StatusCode → Resolved

unfoldable pub resolve_context_team_channel : Request → User → Server → Resolved
resolve_context_team_channel r user s =
    elim (find_team_by_uuid (get_context_team_uuid r.client_fd s.clients) s.teams) [
      | none ↦ refused err_not_found
      | some team ↦
          if not (is_user_subscribed (User.get_uuid user) team)
          then refused err_unauthorized
          else elim (find_channel_by_uuid (get_context_channel_uuid r.client_fd s.clients) team) [
            | none ↦ refused err_not_found
            | some channel ↦ found team channel
          ]
    ]

unfoldable pub create_thread_in :
    Env → Request → User → Bytes → Bytes → Team → Channel → Server → Option Server
unfolding announce_thread generate_unique_thread_uuid change_team change_channel
create_thread_in env r user title body team channel s =
    if any_of (λ thread. same (Thread.get_title thread) title) channel.threads
    then some (queue_status r err_already_exist s)
    else elim (generate_unique_thread_uuid env s) [
      | none ↦ none
      | some (uuid, draws) ↦
          let now = env.time s.clock_reads in
          let thread = Thread.make uuid (User.get_uuid user) now title body in
          some (
            announce_thread r user team channel uuid now title body (
              change_team (get_context_team_uuid r.client_fd s.clients)
                (change_channel (get_context_channel_uuid r.client_fd s.clients)
                  (add_thread thread))
                (record s { draws = draws; clock_reads = suc s.clock_reads })))
    ]

unfoldable pub handle_create_thread : Env → Request → User → Server → Option Server
unfolding create_thread_in resolve_context_team_channel
handle_create_thread env r user s = elim (parse_create_thread_payload r) [
  | none ↦ some (queue_status r err_bad_request s)
  | some (title, body) ↦ elim (resolve_context_team_channel r user s) [
    | refused status ↦ some (queue_status r status s)
    | found team channel ↦ create_thread_in env r user title body team channel s
  ]
]

unfoldable pub create_reply_in : Env → Request → User → Bytes → Team → Channel → Server → Server
unfolding announce_reply change_team change_channel change_thread
create_reply_in env r user body team channel s =
    let team_uuid = get_context_team_uuid r.client_fd s.clients in
    let channel_uuid = get_context_channel_uuid r.client_fd s.clients in
    let thread_uuid = get_context_thread_uuid r.client_fd s.clients in
    elim (find_thread_by_uuid thread_uuid channel) [
      | none ↦ queue_status r err_not_found s
      | some thread ↦
          let now = env.time s.clock_reads in
          let (uuid, draws) = generate_uuid env.draw s.draws in
          let reply = Message.make uuid (User.get_uuid user) now body [] in
          announce_reply r user team thread now body (
            change_team team_uuid
              (change_channel channel_uuid (change_thread thread_uuid (add_reply reply)))
              (record s { draws = draws; clock_reads = suc s.clock_reads }))
    ]

unfoldable pub handle_create_reply : Env → Request → User → Server → Server
unfolding create_reply_in resolve_context_team_channel
handle_create_reply env r user s = elim (parse_create_reply_payload r) [
  | none ↦ queue_status r err_bad_request s
  | some body ↦ elim (resolve_context_team_channel r user s) [
    | refused status ↦ queue_status r status s
    | found team channel ↦ create_reply_in env r user body team channel s
  ]
]

-- What the context makes the request create.
unfoldable pub create_in_context : Env → Request → User → Server → Option Server
unfolding handle_create_team handle_create_channel handle_create_thread handle_create_reply
create_in_context env r user s =
    let team_uuid = get_context_team_uuid r.client_fd s.clients in
    let channel_uuid = get_context_channel_uuid r.client_fd s.clients in
    let thread_uuid = get_context_thread_uuid r.client_fd s.clients in
    if is_empty team_uuid && (not (is_empty channel_uuid) || not (is_empty thread_uuid))
    then some (queue_status r err_bad_request s)
    else if is_empty channel_uuid && not (is_empty thread_uuid)
    then some (queue_status r err_bad_request s)
    else if is_empty team_uuid
    then handle_create_team env r user s
    else if is_empty channel_uuid
    then handle_create_channel env r user s
    else if is_empty thread_uuid
    then handle_create_thread env r user s
    else some (handle_create_reply env r user s)

unfoldable pub handle_create_command : Env → Request → Server → Option Server
unfolding create_in_context
handle_create_command env r s = elim (get_authenticated_user r s) [
  | none ↦ some (queue_status r err_unauthorized s)
  | some user ↦ create_in_context env r user s
]
