-- ===== src/Commands/PrivateMessages/Conversation.antt =====
-- A private message that was sent is in the conversation of its author and its receiver.
use teams_mirror.Prelude.{
  ◌≡◌, refl, ◌∙◌, Bool, true, ◌&&◌, ◌||◌, some, List, [], ◌∷◌, ◌++◌, arith, if◌then◌else◌, same,
  any_of, keep_if, nat_eq, bytes_eq,
}
use teams_mirror.Bytes.{Bytes}
use teams_mirror.Map.{find}
use teams_mirror.Server.{Env, Server, Request, queue_packet, queue_status}
use teams_mirror.Server.Queueing.{queue_each_lem}
use teams_mirror.Server.Uuid.{is_uuid_format_valid}
use teams_mirror.Server.Uuid.Format.{view-valid}
use teams_mirror.Models.Message.{Message}
use teams_mirror.Models.Message
use teams_mirror.Commands.Lookup.{user_has_uuid}
use teams_mirror.Commands.PrivateMessages.{
  send_message, store_message, new_message, parse_send_payload, handle_send_command, is_between,
}

keep_if-append :
    (p : Message → Bool) (xs : List Message) (m : Message)
    → keep_if p (xs ++ m ∷ []) ≡ (if p m then keep_if p xs ++ m ∷ [] else keep_if p xs)
unfolding keep_if
keep_if-append p [] m = ground arith
keep_if-append p (x ∷ xs) m = ground (arith, keep_if-append p xs m)

module _ (env : Env) (r : Request) (s : Server) (author body target : Bytes) where
  -- The request that is accepted: of a client that is logged in, with a body, to a user that exists.
  pub record Accepted : Type 0 where
    pub sized : r.payload_size ≡ 549
    pub authenticated : find r.client_fd s.authenticated_users_by_fd ≡ some author
    pub parsed : parse_send_payload r ≡ some (body, target)
    pub existing : any_of (user_has_uuid target) s.users ≡ true

  messages-send :
      Accepted
      → (handle_send_command env r s).messages
        ≡ s.messages ++ new_message env author body target s ∷ []
  unfolding handle_send_command queue_status queue_packet send_message store_message
  messages-send ok =
      simp (ok.sized, ok.authenticated, ok.parsed, ok.existing) (rw queue_each_lem refl)

  between-new :
      (x y : Bytes)
      → is_uuid_format_valid author ≡ true
      → is_uuid_format_valid target ≡ true
      → is_between x y (new_message env author body target s)
        ≡ ((same author y && same target x) || (same author x && same target y))
  unfolding is_between Message.make
  between-new x y valid known = rw (view-valid author valid, view-valid target known) refl

  -- An accepted message between two users with valid identifiers is stored last in the conversation of its author and its receiver, whichever of the two
  -- asks for it, and every conversation that is not between these two is as it was.
  pub handle_send-conversation :
      (x y : Bytes)
      → Accepted
      → is_uuid_format_valid author ≡ true
      → is_uuid_format_valid target ≡ true
      → keep_if (is_between x y) (handle_send_command env r s).messages ≡ (
          if (same author y && same target x) || (same author x && same target y)
          then keep_if (is_between x y) s.messages ++ new_message env author body target s ∷ []
          else keep_if (is_between x y) s.messages)
  handle_send-conversation x y ok valid known =
      rw (messages-send ok)
        (keep_if-append (is_between x y) s.messages _ ∙ ground (arith, between-new x y valid known))
