-- ===== src/Examples/Lookups.antt =====
-- The handlers of the users, the teams and the messages on concrete data.
use teams_mirror.Prelude.{
  ◌≡◌, update_if, if◌then◌else◌, ◌&&◌, ◌||◌, refl, true, false, some, [], ◌∷◌, ◌++◌, arith,
  replicate, same, keep_if, any_of, find_if, nat_eq,
}
use teams_mirror.Bytes.{view, extract_fixed_string, copy_padded_string}
use teams_mirror.Bytes.Buffer.{view-copy_fits}
use teams_mirror.Map.{find, contains}
use teams_mirror.Protocol.{rpl_ok, rpl_users_list}
use teams_mirror.Protocol.Replies.{encode_rpl_user}
use teams_mirror.Clients.{get_context_team_uuid, get_context_channel_uuid, get_context_thread_uuid}
use teams_mirror.Server.{Server, Request, queue_packet, queue_status}
use teams_mirror.Server.Uuid.{is_uuid_format_valid}
use teams_mirror.Commands.Lookup.{find_team_by_uuid, find_user_by_uuid, get_authenticated_user}
use teams_mirror.Commands.Login.{complete_login, login_as, handle_login_command}
use teams_mirror.Commands.Logout.{handle_logout_command, handle_client_disconnection}
use teams_mirror.Commands.Answers.{list_answer, payloads}
use teams_mirror.Commands.ListAnswers.{handle_users-answer}
use teams_mirror.Commands.UserQueries.{build_user_payload, handle_users_command}
use teams_mirror.Commands.PrivateMessages.{
  sessions, new_message, is_between, handle_send_command, parse_send_payload,
}
use teams_mirror.Prelude.Int.{pos}
use teams_mirror.Prelude.{ℕ}
use teams_mirror.Bytes.{Bytes}
use teams_mirror.Models.Message.{Message}
use teams_mirror.Commands.PrivateMessages.Conversation.{Accepted, handle_send-conversation}
use teams_mirror.Commands.Use.{parse_use_payload, handle_use_command}
use teams_mirror.Commands.Use.Context.{handle_use-context}
use teams_mirror.Commands.Subscription.{
  parse_team_uuid_from_payload, handle_subscribe_command, handle_unsubscribe_command,
}
use teams_mirror.Commands.Subscription.Membership.{
  LeavesMember, Resolves, handle_subscribe-member, handle_unsubscribe-member,
}
use teams_mirror.Sessions.Receivers.{Delivers, disconnection-undelivered}
use teams_mirror.Sessions.Deliveries.{
  AllDelivered, handle_login-AllDelivered, handle_logout-AllDelivered,
}
use teams_mirror.Models.User.{add_logged_in}
use teams_mirror.Commands.Lookup.{find_user_by_name}
use teams_mirror.Protocol.Requests.{decode_req_login, decode_req_create_team}
use teams_mirror.Server.Uuid.{generate_uuid}
use teams_mirror.Commands.CreateRequest.{parse_create_team_payload}
use teams_mirror.Commands.CreateAnswers.{announce_team, generate_unique_team_uuid}
use teams_mirror.Commands.Create.{
  new_team, store_team, handle_create_team, create_in_context, handle_create_command,
}
use teams_mirror.Commands.Create.Members.{Permitted, handle_create-Permitted}
use teams_mirror.Examples.World.{
  uuid_of, alice, bob, crew, stored, alice_user, bob_user, crew_team, client_with, world, env,
  request,
}

-- Alice's request about the team.
abbrev about_crew : Request
about_crew = request 4 (stored crew) 37

crew-Resolves : Resolves about_crew (world []) alice_user crew crew_team
unfolding get_authenticated_user find find_if same view parse_team_uuid_from_payload
    is_uuid_format_valid find_team_by_uuid find_user_by_uuid
crew-Resolves = record { authenticated = refl; parsed = refl; existing = refl }

handle_subscribe-member_example :
    LeavesMember about_crew
      (world [])
      alice_user
      crew
      crew_team
      true
      (handle_subscribe_command about_crew (world []))
handle_subscribe-member_example =
    handle_subscribe-member about_crew (world []) alice_user crew crew_team crew-Resolves
      (unfold view in ground arith)

-- Bob, logged in at the descriptor 4, is a member of both teams.
abbrev by_bob : Server
by_bob = record (world []) {
  teams = record crew_team { uuid = stored (uuid_of b'e') } ∷ crew_team ∷ [];
  authenticated_users_by_fd = (4, bob) ∷ [];
  authenticated_users_by_uuid = (bob, 4 ∷ []) ∷ [];
}

bob-Resolves : Resolves about_crew by_bob bob_user crew crew_team
unfolding get_authenticated_user find find_if same view parse_team_uuid_from_payload
    is_uuid_format_valid find_team_by_uuid find_user_by_uuid
bob-Resolves = record { authenticated = refl; parsed = refl; existing = refl }

handle_unsubscribe-member_example :
    LeavesMember about_crew by_bob bob_user crew crew_team false
      (handle_unsubscribe_command about_crew by_bob)
handle_unsubscribe-member_example =
    handle_unsubscribe-member about_crew by_bob bob_user crew crew_team bob-Resolves

handle_use-context_example :
    (answered : Server) × (handle_use_command about_crew (world [])
      ≡ queue_status about_crew rpl_ok answered)
    × (get_context_team_uuid 4 (handle_use_command about_crew (world [])).clients ≡ crew)
    × (get_context_channel_uuid 4 (handle_use_command about_crew (world [])).clients ≡ [])
    × (get_context_thread_uuid 4 (handle_use_command about_crew (world [])).clients ≡ [])
unfolding contains find parse_use_payload extract_fixed_string is_uuid_format_valid
handle_use-context_example =
    handle_use-context about_crew (world []) (client_with []) crew [] [] refl refl refl
      (record { team_sized = refl; channel_sized = refl; thread_sized = refl }) refl

-- Alice's message to Bob.
abbrev hello : Request
hello = request 4 (stored bob ++ b'h' ∷ b'i' ∷ replicate 510 0) 549

hello-Accepted : Accepted env hello (world []) alice (b'h' ∷ b'i' ∷ []) bob
unfolding find parse_send_payload is_uuid_format_valid any_of same view
hello-Accepted = record { sized = refl; authenticated = refl; parsed = refl; existing = refl }

abbrev sent : Server
sent = handle_send_command env hello (world [])

handle_send-conversation_example : keep_if (is_between bob alice) sent.messages ≡ (
    if (same alice alice && same bob bob) || (same alice bob && same bob alice)
    then keep_if (is_between bob alice) []
      ++ new_message env alice (b'h' ∷ b'i' ∷ []) bob (world []) ∷ []
    else keep_if (is_between bob alice) [])
unfolding is_uuid_format_valid
handle_send-conversation_example =
    handle_send-conversation env hello (world []) alice (b'h' ∷ b'i' ∷ []) bob bob alice
      hello-Accepted refl refl

handle_users-answer_example :
    handle_users_command (request 4 [] 0) (world [])
    ≡ queue_packet 4
        (list_answer rpl_users_list
          (payloads (λ u. encode_rpl_user (build_user_payload u)) (alice_user ∷ bob_user ∷ [])))
        (world [])
unfolding contains
handle_users-answer_example = handle_users-answer (request 4 [] 0) (world []) refl refl

-- Bob's client, whose context is the team.
abbrev in_crew : Server
in_crew = record by_bob {
  clients = (4, record (client_with []) { ctx_team_uuid = stored crew }) ∷ [];
}

-- Alice's question for her conversation with Bob.
abbrev ask_bob : Request
ask_bob = request 4 (stored bob) 37

-- A message of one line.
abbrev message_from : Bytes → Bytes → ℕ → Message
message_from author receiver time = record {
  uuid = stored (uuid_of b'9');
  author_uuid = stored author;
  receiver_uuid = stored receiver;
  created_at = pos time;
  body = b'h' ∷ b'i' ∷ replicate 510 0;
}

-- Alice and Bob wrote to each other, and Bob to himself.
abbrev chatting : Server
chatting = record (world []) {
  messages = message_from alice bob 9 ∷ message_from bob bob 7 ∷ message_from bob alice 5 ∷ [];
}

view-copy_fits_example : view (copy_padded_string (replicate 32 7) (1 ∷ 2 ∷ [])) ≡ 1 ∷ 2 ∷ []
view-copy_fits_example =
    view-copy_fits (replicate 32 7) (1 ∷ 2 ∷ []) (refl, (refl, tt)) (ground arith)

world-Delivers :
    Delivers (world []).authenticated_users_by_fd (world []).authenticated_users_by_uuid
unfolding find any_of same
world-Delivers fd uuid bound = ground arith

-- Bob's login at the descriptor 6.
abbrev bob_login : Request
bob_login = request 6 (b'b' ∷ replicate 31 0) 32

abbrev with_bob : Server
with_bob =
    complete_login bob_login bob_user
      (record (world []) { users = alice_user ∷ add_logged_in bob_user ∷ [] })

handle_login-AllDelivered_example : AllDelivered with_bob
unfolding handle_login_command login_as contains decode_req_login extract_fixed_string
    find_user_by_name find_if update_if view same
handle_login-AllDelivered_example =
    handle_login-AllDelivered env bob_login (world []) with_bob world-Delivers refl

handle_logout-AllDelivered_example :
    AllDelivered (handle_logout_command (request 4 [] 0) (world []))
unfolding contains
handle_logout-AllDelivered_example =
    handle_logout-AllDelivered (request 4 [] 0) (world []) (refl, (refl, tt)) world-Delivers

disconnection-undelivered_example :
    (find 5 (handle_client_disconnection 4 (world [])).authenticated_users_by_fd ≡ some alice)
    × (sessions alice (handle_client_disconnection 4 (world [])).authenticated_users_by_uuid ≡ [])
unfolding find contains
disconnection-undelivered_example =
    disconnection-undelivered 4 5 alice (world []) (refl, (refl, tt)) (refl, tt) refl refl refl

-- Alice's request for a new team.
abbrev new_crew : Request
new_crew = request 4 (b't' ∷ replicate 31 0 ++ b'd' ∷ replicate 254 0) 287

abbrev with_new_crew : Server
with_new_crew =
    announce_team new_crew alice_user (new_team (uuid_of b'd') (b't' ∷ []) (b'd' ∷ []) alice_user)
      (store_team (new_team (uuid_of b'd') (b't' ∷ []) (b'd' ∷ []) alice_user) 32 (world []))

handle_create-Permitted_example : Permitted new_crew (world []) alice_user with_new_crew.teams
unfolding handle_create_command get_authenticated_user create_in_context handle_create_team find
    find_if view same find_user_by_uuid any_of parse_create_team_payload decode_req_create_team
    extract_fixed_string generate_unique_team_uuid generate_uuid get_context_team_uuid
    get_context_channel_uuid get_context_thread_uuid
handle_create-Permitted_example =
    handle_create-Permitted env new_crew alice_user (world []) with_new_crew refl refl
