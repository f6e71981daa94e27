-- ===== src/Commands/Answers.antt =====
-- What the listing requests send: a packet for each item and a final RPL_OK, and no other change.
use teams_mirror.Prelude.{
  ℕ, ◌≡◌, sym, ◌∙◌, none, some, List, [], ◌∷◌, ◌++◌, keep_if, nat_eq, Bool-cases, Option-cases, inl,
  inr,
}
use teams_mirror.Bytes.{Bytes, view}
use teams_mirror.Protocol.{
  StatusCode, rpl_ok, rpl_users_list, rpl_messages_list, rpl_subscribed_list,
}
use teams_mirror.Protocol.Replies.{encode_rpl_user, encode_rpl_message, encode_rpl_team}
use teams_mirror.Packet.{status_packet}
use teams_mirror.Server.{Server, Request, queue_packet, queue_reply}
use teams_mirror.Server.Queueing.{queue_packet-nil, queue_packet-append}
use teams_mirror.Models.User.{User}
use teams_mirror.Models.User
use teams_mirror.Models.Message.{Message}
use teams_mirror.Models.Team.{Team, is_user_subscribed}
use teams_mirror.Commands.Lookup.{find_user_by_uuid}
use teams_mirror.Commands.UserQueries.{build_user_payload, queue_users}
use teams_mirror.Commands.Subscription.{
  team_payload, queue_user_info, queue_subscribed_teams, queue_subscribed_users,
}
use teams_mirror.Commands.PrivateMessages.{message_payload, queue_messages}
use teams_mirror.Commands.Listing.{queue_payloads}

-- A packet with the status for each payload.
abbrev pub packets : StatusCode → List Bytes → Bytes
packets status [] = []
packets status (p ∷ ps) = status_packet status p ++ packets status ps

-- The whole answer to a listing request.
abbrev pub list_answer : StatusCode → List Bytes → Bytes
list_answer status ps = packets status ps ++ status_packet rpl_ok []

abbrev pub payloads {ℓ} : {A : Type ℓ} → (A → Bytes) → List A → List Bytes
payloads f [] = []
payloads f (x ∷ xs) = f x ∷ payloads f xs

-- One more packet in front of those that a loop queues.
one_more :
    (fd : ℕ) (a b : Bytes) (s s' : Server)
    → s' ≡ queue_packet fd b (queue_packet fd a s)
    → s' ≡ queue_packet fd (a ++ b) s
one_more fd a b s s' h = h ∙ queue_packet-append fd a b s

-- The users of a list of stored identifiers, those that are not found left out.
abbrev pub known_users : List User → List Bytes → List User
known_users users [] = []
known_users users (stored ∷ rest) = elim (find_user_by_uuid (view stored) users) [
  | none ↦ known_users users rest
  | some user ↦ user ∷ known_users users rest
]

module _ (r : Request) where
  pub queue_payloads-packets :
      (status : StatusCode) (ps : List Bytes) (s : Server)
      → queue_payloads r status ps s ≡ queue_packet r.client_fd (packets status ps) s
  unfolding queue_payloads queue_reply
  queue_payloads-packets status [] s = sym (queue_packet-nil r.client_fd s)
  queue_payloads-packets status (p ∷ ps) s =
      one_more r.client_fd (status_packet status p) (packets status ps) s _
        (queue_payloads-packets status ps (queue_packet r.client_fd (status_packet status p) s))

  pub queue_users-packets :
      (users : List User) (s : Server)
      → queue_users r users s
        ≡ queue_packet r.client_fd
            (packets rpl_users_list (payloads (λ u. encode_rpl_user (build_user_payload u)) users))
            s
  unfolding queue_users queue_reply
  queue_users-packets [] s = sym (queue_packet-nil r.client_fd s)
  queue_users-packets (u ∷ users) s =
      one_more r.client_fd (status_packet rpl_users_list (encode_rpl_user (build_user_payload u))) _
        s _ (queue_users-packets users _)

  pub queue_messages-packets :
      (msgs : List Message) (s : Server)
      → queue_messages r msgs s
        ≡ queue_packet r.client_fd
            (packets rpl_messages_list
              (payloads (λ m. encode_rpl_message (message_payload m)) msgs))
            s
  unfolding queue_messages queue_reply
  queue_messages-packets [] s = sym (queue_packet-nil r.client_fd s)
  queue_messages-packets (m ∷ msgs) s =
      one_more r.client_fd
        (status_packet rpl_messages_list (encode_rpl_message (message_payload m))) _ s _
        (queue_messages-packets msgs _)

  pub queue_subscribed_teams-packets :
      (user : User) (teams : List Team) (s : Server)
      → queue_subscribed_teams r user teams s
        ≡ queue_packet r.client_fd
            (packets rpl_subscribed_list (
              payloads
                (λ t. encode_rpl_team (team_payload t))
                (keep_if (is_user_subscribed (User.get_uuid user)) teams)))
            s
  unfolding queue_subscribed_teams queue_reply keep_if
  queue_subscribed_teams-packets user [] s = sym (queue_packet-nil r.client_fd s)
  queue_subscribed_teams-packets user (t ∷ teams) s =
      elim (Bool-cases (is_user_subscribed (User.get_uuid user) t)) [
        | inl e ↦ rw e (
            one_more r.client_fd
              (status_packet rpl_subscribed_list (encode_rpl_team (team_payload t))) _ s _
              (queue_subscribed_teams-packets user teams _))
        | inr e ↦ rw e (queue_subscribed_teams-packets user teams s)
      ]

  pub queue_subscribed_users-packets :
      (users : List User) (uuids : List Bytes) (s : Server)
      → queue_subscribed_users r users uuids s
        ≡ queue_packet r.client_fd
            (packets rpl_users_list
              (payloads (λ u. encode_rpl_user (build_user_payload u)) (known_users users uuids)))
            s
  unfolding queue_subscribed_users queue_reply queue_user_info
  queue_subscribed_users-packets users [] s = sym (queue_packet-nil r.client_fd s)
  queue_subscribed_users-packets users (stored ∷ rest) s =
      elim (Option-cases (find_user_by_uuid (view stored) users)) [
        | inl e ↦ rw (e, known_users) (queue_subscribed_users-packets users rest s)
        | inr (u, e) ↦
            rw (e, known_users)
              (one_more r.client_fd
                (status_packet rpl_users_list (encode_rpl_user (build_user_payload u))) _ s _
                (queue_subscribed_users-packets users rest _))
      ]
