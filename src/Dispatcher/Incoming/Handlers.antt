-- ===== src/Dispatcher/Incoming/Handlers.antt =====
-- The handlers of a request, and the packets they queue, leave the incoming buffers as they are.
use teams_mirror.Prelude.{
  ℕ, ◌≡◌, refl, ◌∙◌, ap, sym, not, Option, none, some, List, [], ◌∷◌, arith, ◌==◌, nat_eq,
  Option-cases, Bool-cases, inl, inr, some_inj,
}
use teams_mirror.Prelude.Int.{ℤ}
use teams_mirror.Bytes.{Bytes}
use teams_mirror.Map.{find}
use teams_mirror.Protocol.{StatusCode}
use teams_mirror.Clients.{ClientManager, queue_data_to_send}
use teams_mirror.Clients.Incoming.{incoming, incoming-queue, incoming-set_context}
use teams_mirror.Server.{Server, Request, queue_packet, queue_status, queue_reply, queue_each}
use teams_mirror.Server.Queueing.{queue_each_lem, queue_data_each}
use teams_mirror.Models.User.{User}
use teams_mirror.Models.Message.{Message}
use teams_mirror.Models.Thread.{Thread}
use teams_mirror.Models.Channel.{Channel}
use teams_mirror.Models.Team.{Team}
use teams_mirror.Commands.Lookup.{find_user_by_uuid}
use teams_mirror.Commands.Login.{complete_login}
use teams_mirror.Commands.Logout.{
  unregister_session, broadcast_logged_out_event, handle_logout_command,
  handle_client_disconnection,
}
use teams_mirror.Commands.Subscription.{
  queue_user_info, handle_subscribe_command, handle_unsubscribe_command,
}
use teams_mirror.Commands.PrivateMessages.{send_message}
use teams_mirror.Commands.Use.{handle_use_command}
use teams_mirror.Commands.CreateAnswers.{
  announce_team, announce_channel, announce_thread, announce_reply,
}

abbrev pub SameIncoming : Server → Server → Type 0
SameIncoming s s' = incoming s'.clients ≡ incoming s.clients

abbrev pub KeepsIncoming : Server → Option Server → Type 0
KeepsIncoming s result = (s' : Server) → result ≡ some s' → SameIncoming s s'

incoming-queue_each :
    (fds : List ℕ) (p : Bytes) (m : ClientManager) → incoming (queue_data_each fds p m) ≡ incoming m
incoming-queue_each [] p m = refl
incoming-queue_each (fd ∷ fds) p m =
    incoming-queue_each fds p (queue_data_to_send fd p m) ∙ incoming-queue fd p m

pub each-SameIncoming :
    (fds : List ℕ) (p : Bytes) (s t : Server)
    → SameIncoming s t
    → SameIncoming s (queue_each fds p t)
each-SameIncoming fds p s t h = rw queue_each_lem (incoming-queue_each fds p t.clients ∙ h)

module _ (r : Request) (s : Server) where
  pub status-SameIncoming : (status : StatusCode) → SameIncoming s (queue_status r status s)
  unfolding queue_status queue_packet
  status-SameIncoming status = incoming-queue r.client_fd _ s.clients

  pub reply-SameIncoming :
      (status : StatusCode) (p : Bytes) → SameIncoming s (queue_reply r status p s)
  unfolding queue_reply queue_packet
  reply-SameIncoming status p = incoming-queue r.client_fd _ s.clients

  pub use-SameIncoming : SameIncoming s (handle_use_command r s)
  unfolding handle_use_command queue_status queue_packet
  use-SameIncoming = grind (arith, incoming-queue, incoming-set_context)

  pub subscribe-SameIncoming : SameIncoming s (handle_subscribe_command r s)
  unfolding handle_subscribe_command queue_status queue_packet queue_user_info queue_reply
  subscribe-SameIncoming = grind (arith, incoming-queue)

  pub unsubscribe-SameIncoming : SameIncoming s (handle_unsubscribe_command r s)
  unfolding handle_unsubscribe_command queue_status queue_packet queue_user_info queue_reply
  unsubscribe-SameIncoming = grind (arith, incoming-queue)

  pub complete_login-SameIncoming : (u : User) → SameIncoming s (complete_login r u s)
  unfolding complete_login queue_status queue_packet
  complete_login-SameIncoming u = each-SameIncoming _ _ s _ (incoming-queue r.client_fd _ s.clients)

  pub logout-SameIncoming : SameIncoming s (handle_logout_command r s)
  unfolding handle_logout_command queue_status queue_packet unregister_session
      broadcast_logged_out_event
  logout-SameIncoming = elim (Bool-cases (not (r.payload_size == 0))) [
    | inl e ↦ rw e (incoming-queue r.client_fd _ s.clients)
    | inr e ↦ rw e (elim (Option-cases (find r.client_fd s.authenticated_users_by_fd)) [
      | inl f ↦ rw (f, handle_logout_command) (incoming-queue r.client_fd _ s.clients)
      | inr (uuid, f) ↦
          rw (f, handle_logout_command)
            (elim (Option-cases (find_user_by_uuid uuid s.users)) [
              | inl n ↦ rw (n, handle_logout_command) (incoming-queue r.client_fd _ s.clients)
              | inr (user, n) ↦
                  rw (n, handle_logout_command, queue_each_lem, incoming-queue_each, incoming-queue)
                    (incoming-queue r.client_fd _ s.clients)
            ])
    ])
  ]

  pub send_message-SameIncoming : (m : Message) → SameIncoming s (send_message m s)
  unfolding send_message
  send_message-SameIncoming m = rw (queue_each_lem, incoming-queue_each) refl

  pub announce_team-SameIncoming : (u : User) (t : Team) → SameIncoming s (announce_team r u t s)
  unfolding announce_team queue_reply queue_packet
  announce_team-SameIncoming u t = rw (queue_each_lem, incoming-queue_each, incoming-queue) refl

  pub announce_channel-SameIncoming :
      (t : Team) (uuid name description : Bytes)
      → SameIncoming s (announce_channel r t uuid name description s)
  unfolding announce_channel queue_reply queue_packet
  announce_channel-SameIncoming t uuid name description =
      rw (queue_each_lem, incoming-queue_each, incoming-queue) refl

  pub announce_thread-SameIncoming :
      (u : User) (t : Team) (c : Channel) (uuid : Bytes) (now : ℤ) (title body : Bytes)
      → SameIncoming s (announce_thread r u t c uuid now title body s)
  unfolding announce_thread queue_reply queue_packet
  announce_thread-SameIncoming u t c uuid now title body =
      rw (queue_each_lem, incoming-queue_each, incoming-queue) refl

  pub announce_reply-SameIncoming :
      (u : User) (t : Team) (th : Thread) (now : ℤ) (body : Bytes)
      → SameIncoming s (announce_reply r u t th now body s)
  unfolding announce_reply queue_reply queue_packet
  announce_reply-SameIncoming u t th now body =
      rw (queue_each_lem, incoming-queue_each, incoming-queue) refl

pub disconnection-SameIncoming :
    (fd : ℕ) (s : Server) → SameIncoming s (handle_client_disconnection fd s)
unfolding handle_client_disconnection unregister_session broadcast_logged_out_event
disconnection-SameIncoming fd s = elim (Option-cases (find fd s.authenticated_users_by_fd)) [
  | inl e ↦ rw (e, handle_client_disconnection) refl
  | inr (uuid, e) ↦
      rw (e, handle_client_disconnection)
        (elim (Option-cases (find_user_by_uuid uuid s.users)) [
          | inl n ↦ rw (n, handle_client_disconnection) refl
          | inr (user, n) ↦
              rw (n, handle_client_disconnection, queue_each_lem, incoming-queue_each) refl
        ])
]

module _ (s : Server) where
  -- From the state that is announced back to the state before.
  pub back :
      (t s' : Server) {result : Option Server}
      → SameIncoming s t
      → SameIncoming t s'
      → (out : Server) → result ≡ some s'
      → result ≡ some out
      → SameIncoming s out
  back t s' before after out e h =
      ap (λ x. incoming x.clients) (sym (some_inj (sym e ∙ h))) ∙ after ∙ before

  pub status_keeps :
      (r : Request) (status : StatusCode) (result : Option Server)
      → result ≡ some (queue_status r status s)
      → KeepsIncoming s result
  status_keeps r status result e out h =
      back s (queue_status r status s) refl (status-SameIncoming r s status) out e h

  pub none_keeps : (result : Option Server) → result ≡ none → KeepsIncoming s result
  none_keeps result e out h = absurd (ground arith)
