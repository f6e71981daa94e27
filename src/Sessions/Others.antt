-- ===== src/Sessions/Others.antt =====
-- The other commands leave the users and their sessions as they are.
use teams_mirror.Prelude.{
  ℕ, ◌≡◌, refl, ap, not, Option, none, some, List, [], arith, ◌==◌, nat_eq, suc, Option-cases,
  Bool-cases, inl, inr, any_of,
}
use teams_mirror.Bytes.{Bytes}
use teams_mirror.Map.{find}
use teams_mirror.Server.{Env, Server, Request, queue_status, queue_reply, queue_each}
use teams_mirror.Server.Queueing.{queue_each_lem}
use teams_mirror.Prelude.Int.{ℤ}
use teams_mirror.Clients.{get_context_team_uuid, get_context_channel_uuid, get_context_thread_uuid}
use teams_mirror.Server.Uuid.{generate_uuid}
use teams_mirror.Models.User.{User}
use teams_mirror.Models.User
use teams_mirror.Models.Message
use teams_mirror.Models.Thread
use teams_mirror.Models.Channel
use teams_mirror.Models.Message.{Message}
use teams_mirror.Models.Thread.{Thread, add_reply}
use teams_mirror.Models.Channel.{Channel, add_thread}
use teams_mirror.Models.Team.{Team, add_channel}
use teams_mirror.Protocol.{StatusCode, err_bad_request, err_unauthorized}
use teams_mirror.Commands.Lookup.{get_authenticated_user, user_has_uuid}
use teams_mirror.Commands.Create.Outcome.{
  answered, exhausted, created, handle_create_team-outcome, handle_create_channel-outcome,
  handle_create_thread-outcome, handle_create_reply-outcome,
}
use teams_mirror.Commands.Subscription.{
  queue_user_info, handle_subscribe_command, handle_unsubscribe_command,
}
use teams_mirror.Commands.PrivateMessages.{
  send_message, store_message, new_message, handle_send_command, parse_send_payload,
}
use teams_mirror.Commands.Use.{handle_use_command}
use teams_mirror.Commands.Create.{
  handle_create_team, handle_create_channel, handle_create_thread, handle_create_reply,
  create_in_context, handle_create_command, change_team, change_channel, change_thread, new_team,
  store_team,
}
use teams_mirror.Commands.CreateAnswers.{
  announce_team, announce_channel, announce_thread, announce_reply,
}

-- The same users and the same descriptors.
abbrev pub SameSessions : Server → Server → Type 0
SameSessions s s' =
    (s'.users ≡ s.users) × (s'.authenticated_users_by_fd ≡ s.authenticated_users_by_fd)

abbrev pub KeepsSessions : Server → Option Server → Type 0
KeepsSessions s result = (s' : Server) → result ≡ some s' → SameSessions s s'

module _ (r : Request) (s : Server) where
  pub subscribe-SameSessions : SameSessions s (handle_subscribe_command r s)
  unfolding handle_subscribe_command queue_status queue_user_info queue_reply
  subscribe-SameSessions = ground arith

  pub unsubscribe-SameSessions : SameSessions s (handle_unsubscribe_command r s)
  unfolding handle_unsubscribe_command queue_status queue_user_info queue_reply
  unsubscribe-SameSessions = ground arith

  pub use-SameSessions : SameSessions s (handle_use_command r s)
  unfolding handle_use_command queue_status
  use-SameSessions = ground arith

  each-SameSessions :
      (fds : List ℕ) (p : Bytes) (t : Server)
      → SameSessions s t
      → SameSessions s (queue_each fds p t)
  each-SameSessions fds p t h = rw queue_each_lem h

module _ (r : Request) (s : Server) where
  announce_team-SameSessions : (u : User) (t : Team) → SameSessions s (announce_team r u t s)
  unfolding announce_team queue_reply
  announce_team-SameSessions u t = each-SameSessions r s _ _ _ (refl, refl)

  announce_channel-SameSessions :
      (t : Team) (uuid name description : Bytes)
      → SameSessions s (announce_channel r t uuid name description s)
  unfolding announce_channel queue_reply
  announce_channel-SameSessions t uuid name description = each-SameSessions r s _ _ _ (refl, refl)

  announce_thread-SameSessions :
      (u : User) (t : Team) (c : Channel) (uuid : Bytes) (now : ℤ) (title body : Bytes)
      → SameSessions s (announce_thread r u t c uuid now title body s)
  unfolding announce_thread queue_reply
  announce_thread-SameSessions u t c uuid now title body = each-SameSessions r s _ _ _ (refl, refl)

  announce_reply-SameSessions :
      (u : User) (t : Team) (th : Thread) (now : ℤ) (body : Bytes)
      → SameSessions s (announce_reply r u t th now body s)
  unfolding announce_reply queue_reply
  announce_reply-SameSessions u t th now body = each-SameSessions r s _ _ _ (refl, refl)

  send_message-SameSessions : (m : Message) → SameSessions s (send_message m s)
  unfolding send_message
  send_message-SameSessions m = each-SameSessions r s _ _ _ (refl, refl)

module _ (s : Server) where
  -- From the state that is announced back to the state before.
  back :
      (t s' : Server) {result : Option Server}
      → SameSessions s t
      → SameSessions t s'
      → (out : Server) → result ≡ some s'
      → result ≡ some out
      → SameSessions s out
  back t s' before after out e h = ground arith

  status_keeps :
      (r : Request) (status : StatusCode) (result : Option Server)
      → result ≡ some (queue_status r status s)
      → KeepsSessions s result
  unfolding queue_status
  status_keeps r status result e out h = ground arith

  none_keeps : (result : Option Server) → result ≡ none → KeepsSessions s result
  none_keeps result e out h = absurd (ground arith)

module _ (env : Env) (r : Request) (s : Server) (u : User) where
  create_team-KeepsSessions : KeepsSessions s (handle_create_team env r u s)
  create_team-KeepsSessions out h = elim (handle_create_team-outcome env r u s) [
    | answered status e ↦ status_keeps s r status _ e out h
    | exhausted e ↦ none_keeps s _ e out h
    | created name description uuid draws p f g e ↦
        back s (store_team (new_team uuid name description u) draws s) _ (refl, refl)
          (announce_team-SameSessions r _ u _) out e h
  ]

  create_channel-KeepsSessions : KeepsSessions s (handle_create_channel env r u s)
  unfolding change_team
  create_channel-KeepsSessions out h = elim (handle_create_channel-outcome env r u s) [
    | answered status e ↦ status_keeps s r status _ e out h
    | exhausted e ↦ none_keeps s _ e out h
    | created name description uuid draws team p f m t g e ↦
        back s
          (change_team (get_context_team_uuid r.client_fd s.clients)
            (add_channel (Channel.make uuid name description)) (record s { draws = draws }))
          _ (refl, refl) (announce_channel-SameSessions r _ _ _ _ _) out e h
  ]

  create_thread-KeepsSessions : KeepsSessions s (handle_create_thread env r u s)
  unfolding change_team
  create_thread-KeepsSessions out h = elim (handle_create_thread-outcome env r u s) [
    | answered status e ↦ status_keeps s r status _ e out h
    | exhausted e ↦ none_keeps s _ e out h
    | created title body uuid draws team channel p c t g e ↦
        back s
          (change_team (get_context_team_uuid r.client_fd s.clients)
            (change_channel (get_context_channel_uuid r.client_fd s.clients)
              (add_thread (Thread.make uuid (User.get_uuid u) (env.time s.clock_reads) title body)))
            (record s { draws = draws; clock_reads = suc s.clock_reads }))
          _ (refl, refl) (announce_thread-SameSessions r _ u _ _ _ _ _ _) out e h
  ]

  create_reply-KeepsSessions : KeepsSessions s (some (handle_create_reply env r u s))
  unfolding change_team
  create_reply-KeepsSessions out h = elim (handle_create_reply-outcome env r u s) [
    | answered status e ↦ status_keeps s r status _ (ap some e) out h
    | created body team channel thread p c g e ↦
        back s
          (change_team (get_context_team_uuid r.client_fd s.clients)
            (change_channel (get_context_channel_uuid r.client_fd s.clients) (
              change_thread (get_context_thread_uuid r.client_fd s.clients) (
                add_reply (
                  Message.make (generate_uuid env.draw s.draws).0 (User.get_uuid u)
                    (env.time s.clock_reads) body []))))
            (record s {
              draws = (generate_uuid env.draw s.draws).1;
              clock_reads = suc s.clock_reads;
            }))
          _ (refl, refl) (announce_reply-SameSessions r _ u _ _ _ _) out (ap some e) h
  ]

  in_context-KeepsSessions : KeepsSessions s (create_in_context env r u s)
  unfolding create_in_context
  in_context-KeepsSessions out h = ground (
    arith,
    status_keeps s r err_bad_request (some (queue_status r err_bad_request s)) refl out,
    create_team-KeepsSessions out,
    create_channel-KeepsSessions out,
    create_thread-KeepsSessions out,
    create_reply-KeepsSessions out,
  )

module _ (env : Env) (r : Request) (s : Server) where
  pub create-KeepsSessions : KeepsSessions s (handle_create_command env r s)
  unfolding handle_create_command
  create-KeepsSessions out h = elim (Option-cases (get_authenticated_user r s)) [
    | inl e ↦ status_keeps s r err_unauthorized _ refl out (rw (e, handle_create_command) at h)
    | inr (u, e) ↦ in_context-KeepsSessions env r s u out (rw (e, handle_create_command) at h)
  ]

  pub send-SameSessions : SameSessions s (handle_send_command env r s)
  unfolding handle_send_command queue_status store_message
  send-SameSessions = elim (Bool-cases (not (r.payload_size == 549))) [
    | inl e ↦ rw e (refl, refl)
    | inr e ↦ rw e (elim (Option-cases (find r.client_fd s.authenticated_users_by_fd)) [
      | inl f ↦ rw f (refl, refl)
      | inr (author, f) ↦ rw f (elim (Option-cases (parse_send_payload r)) [
        | inl p ↦ rw p (refl, refl)
        | inr ((body, target), p) ↦
            rw p (elim (Bool-cases (not (any_of (user_has_uuid target) s.users))) [
              | inl k ↦ rw k (refl, refl)
              | inr k ↦ rw k (
                  send_message-SameSessions r (store_message env author body target s)
                    (new_message env author body target s))
            ])
      ])
    ])
  ]
