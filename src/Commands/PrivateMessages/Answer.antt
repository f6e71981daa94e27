-- ===== src/Commands/PrivateMessages/Answer.antt =====
-- What handleMessagesCommand (server/commands/messages_command.cpp) answers, on each of its branches.
use teams_mirror.Prelude.{
  ◌==◌, ◌≡◌, ◌⊎◌, true, false, none, some, List, [], ◌∷◌, ◌++◌, All, nat_eq, bytes_eq,
}
use teams_mirror.Prelude.Int.{ltb_ℤ}
use mathlib.Core.List.{Perm}
use mathlib.Core.List.Perm
use teams_mirror.Bytes.{Bytes}
use teams_mirror.Map.{find}
use teams_mirror.Protocol.{rpl_messages_list, err_bad_request, err_unauthorized, err_not_found}
use teams_mirror.Protocol.Requests.{size_req_target_user}
use teams_mirror.Protocol.Replies.{encode_rpl_message}
use teams_mirror.Packet.{status_packet}
use teams_mirror.Server.{Server, Request}
use teams_mirror.Models.User.{User}
use teams_mirror.Models.Message.{Message}
use teams_mirror.Models.Message
use teams_mirror.Commands.Lookup.{find_user_by_uuid}
use teams_mirror.Commands.Answers.{list_answer, payloads}
use teams_mirror.Commands.PrivateMessages.{message_payload, parse_messages_payload}

-- No message was created before one that stands in front of it.
abbrev pub Ascending : List Message → Type 0
Ascending [] = Unit
Ascending (m ∷ ms) =
    All (λ (later : Message). ltb_ℤ later.created_at m.created_at ≡ false) ms × Ascending ms

-- What std::sort promises of the comparison by creation: the same messages, in an ascending order.
pub record SortsByCreation (sort : List Message → List Message) : Type 0 where
  pub rearranges : (ms : List Message) → Perm (sort ms) ms
  pub ascends : (ms : List Message) → Ascending (sort ms)

-- A message of the one to the other.
abbrev pub IsAbout : Bytes → Bytes → Message → Type 0
IsAbout x y m =
    ((Message.get_author_uuid m ≡ x) × (Message.get_receiver_uuid m ≡ y))
    ⊎ ((Message.get_author_uuid m ≡ y) × (Message.get_receiver_uuid m ≡ x))

-- All messages between the two, as often as they are stored, and no others, in an ascending order.
pub record Conversation (x y : Bytes) (stored shown : List Message) : Type 0 where
  pub between : List Message
  pub others : List Message
  pub shows : Perm shown between
  pub divides : Perm (between ++ others) stored
  pub between_all : All (IsAbout x y) between
  pub others_all : All (λ m. ¬ IsAbout x y m) others
  pub ascends : Ascending shown

module _ (r : Request) (s : Server) where
  -- The answers: a status for what is wrong with the request, or the conversation of the client's user and the other.
  pub data MessagesAnswer : Bytes → Type 0 where
    wrong_size :
        (r.payload_size == size_req_target_user) ≡ false
        → MessagesAnswer (status_packet err_bad_request [])
    logged_out :
        (r.payload_size == size_req_target_user) ≡ true
        → find r.client_fd s.authenticated_users_by_fd ≡ none
        → MessagesAnswer (status_packet err_unauthorized [])
    wrong_target :
        (client : Bytes)
        → (r.payload_size == size_req_target_user) ≡ true
        → find r.client_fd s.authenticated_users_by_fd ≡ some client
        → parse_messages_payload r ≡ none
        → MessagesAnswer (status_packet err_bad_request [])
    no_user :
        (client target : Bytes)
        → (r.payload_size == size_req_target_user) ≡ true
        → find r.client_fd s.authenticated_users_by_fd ≡ some client
        → parse_messages_payload r ≡ some target
        → find_user_by_uuid target s.users ≡ none
        → MessagesAnswer (status_packet err_not_found [])
    answered :
        (client target : Bytes) (user : User) (shown : List Message)
        → (r.payload_size == size_req_target_user) ≡ true
        → find r.client_fd s.authenticated_users_by_fd ≡ some client
        → parse_messages_payload r ≡ some target
        → find_user_by_uuid target s.users ≡ some user
        → Conversation client target s.messages shown
        → MessagesAnswer (
            list_answer rpl_messages_list
              (payloads (λ m. encode_rpl_message (message_payload m)) shown))
