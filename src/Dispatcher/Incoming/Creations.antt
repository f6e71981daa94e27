-- ===== src/Dispatcher/Incoming/Creations.antt =====
-- Creations, private messages and logins leave the incoming buffers as they are.
use teams_mirror.Prelude.{
  suc, refl, ◌∙◌, ap, sym, true, not, some, [], arith, ◌==◌, nat_eq, Option-cases, Bool-cases, inl,
  inr, any_of, update_if,
}
use teams_mirror.Bytes.{Bytes}
use teams_mirror.Map.{find}
use teams_mirror.Protocol.{err_bad_request, err_unauthorized}
use teams_mirror.Clients.{get_context_team_uuid, get_context_channel_uuid, get_context_thread_uuid}
use teams_mirror.Server.{Env, Server, Request, queue_status}
use teams_mirror.Server.Uuid.{generate_unique, generate_uuid}
use teams_mirror.Models.User.{User, add_logged_in}
use teams_mirror.Models.User
use teams_mirror.Models.Message.{Message}
use teams_mirror.Models.Message
use teams_mirror.Models.Thread.{Thread, add_reply}
use teams_mirror.Models.Thread
use teams_mirror.Models.Channel.{Channel, add_thread}
use teams_mirror.Models.Channel
use teams_mirror.Models.Team.{add_channel}
use teams_mirror.Commands.Lookup.{
  get_authenticated_user, user_has_uuid, user_has_name, find_user_by_name,
}
use teams_mirror.Commands.Login.{complete_login, create_user, login_as, handle_login_command}
use teams_mirror.Commands.Login.Outcome.{LoginOutcome, passed, handle_login-outcome}
use teams_mirror.Commands.Login.Outcome
use teams_mirror.Commands.PrivateMessages.{
  send_message, store_message, new_message, parse_send_payload, handle_send_command,
}
use teams_mirror.Commands.Create.{
  handle_create_team, handle_create_channel, handle_create_thread, handle_create_reply,
  create_in_context, handle_create_command, change_team, change_channel, change_thread, new_team,
  store_team,
}
use teams_mirror.Commands.CreateAnswers.{announce_team}
use teams_mirror.Commands.Create.Outcome.{
  answered, exhausted, created, handle_create_team-outcome, handle_create_channel-outcome,
  handle_create_thread-outcome, handle_create_reply-outcome,
}
use teams_mirror.Dispatcher.Incoming.Handlers.{
  SameIncoming, KeepsIncoming, announce_channel-SameIncoming, announce_reply-SameIncoming,
  announce_team-SameIncoming, announce_thread-SameIncoming, back, complete_login-SameIncoming,
  none_keeps, send_message-SameIncoming, status-SameIncoming, status_keeps,
}

module _ (env : Env) (r : Request) (s : Server) (u : User) where
  create_team-KeepsIncoming : KeepsIncoming s (handle_create_team env r u s)
  create_team-KeepsIncoming out h = elim (handle_create_team-outcome env r u s) [
    | answered status e ↦ status_keeps s r status _ e out h
    | exhausted e ↦ none_keeps s _ e out h
    | created name description uuid draws p f g e ↦
        back s (store_team (new_team uuid name description u) draws s)
          (announce_team r u (new_team uuid name description u)
            (store_team (new_team uuid name description u) draws s))
          refl (announce_team-SameIncoming r _ u _) out e h
  ]

  create_channel-KeepsIncoming : KeepsIncoming s (handle_create_channel env r u s)
  unfolding change_team
  create_channel-KeepsIncoming out h = elim (handle_create_channel-outcome env r u s) [
    | answered status e ↦ status_keeps s r status _ e out h
    | exhausted e ↦ none_keeps s _ e out h
    | created name description uuid draws team p f m t g e ↦
        back s
          (change_team (get_context_team_uuid r.client_fd s.clients)
            (add_channel (Channel.make uuid name description)) (record s { draws = draws }))
          _ refl (announce_channel-SameIncoming r _ _ _ _ _) out e h
  ]

  create_thread-KeepsIncoming : KeepsIncoming s (handle_create_thread env r u s)
  unfolding change_team
  create_thread-KeepsIncoming out h = elim (handle_create_thread-outcome env r u s) [
    | answered status e ↦ status_keeps s r status _ e out h
    | exhausted e ↦ none_keeps s _ e out h
    | created title body uuid draws team channel p c t g e ↦
        back s
          (change_team (get_context_team_uuid r.client_fd s.clients)
            (change_channel (get_context_channel_uuid r.client_fd s.clients)
              (add_thread (Thread.make uuid (User.get_uuid u) (env.time s.clock_reads) title body)))
            (record s { draws = draws; clock_reads = suc s.clock_reads }))
          _ refl (announce_thread-SameIncoming r _ u _ _ _ _ _ _) out e h
  ]

  create_reply-KeepsIncoming : KeepsIncoming s (some (handle_create_reply env r u s))
  unfolding change_team
  create_reply-KeepsIncoming out h = elim (handle_create_reply-outcome env r u s) [
    | answered status e ↦ status_keeps s r status _ (ap some e) out h
    | created body team channel thread p c g e ↦
        back s
          (change_team (get_context_team_uuid r.client_fd s.clients)
            (change_channel (get_context_channel_uuid r.client_fd s.clients) (
              change_thread (get_context_thread_uuid r.client_fd s.clients) (
                add_reply (
                  Message.make (generate_uuid env.draw s.draws).0 (User.get_uuid u)
                    (env.time s.clock_reads) body []))))
            (record s {
              draws = (generate_uuid env.draw s.draws).1;
              clock_reads = suc s.clock_reads;
            }))
          _ refl (announce_reply-SameIncoming r _ u _ _ _ _) out (ap some e) h
  ]

  in_context-KeepsIncoming : KeepsIncoming s (create_in_context env r u s)
  unfolding create_in_context
  in_context-KeepsIncoming out h = ground (
    arith,
    status_keeps s r err_bad_request (some (queue_status r err_bad_request s)) refl out,
    create_team-KeepsIncoming out,
    create_channel-KeepsIncoming out,
    create_thread-KeepsIncoming out,
    create_reply-KeepsIncoming out,
  )

module _ (env : Env) (r : Request) (s : Server) where
  pub create-KeepsIncoming : KeepsIncoming s (handle_create_command env r s)
  unfolding handle_create_command
  create-KeepsIncoming out h = elim (Option-cases (get_authenticated_user r s)) [
    | inl e ↦ status_keeps s r err_unauthorized _ refl out (rw (e, handle_create_command) at h)
    | inr (u, e) ↦ in_context-KeepsIncoming env r s u out (rw (e, handle_create_command) at h)
  ]

  pub send-SameIncoming : SameIncoming s (handle_send_command env r s)
  unfolding handle_send_command store_message
  send-SameIncoming = elim (Bool-cases (not (r.payload_size == 549))) [
    | inl e ↦ rw e (status-SameIncoming r s _)
    | inr e ↦ rw e (elim (Option-cases (find r.client_fd s.authenticated_users_by_fd)) [
      | inl f ↦ rw f (status-SameIncoming r s _)
      | inr (author, f) ↦ rw f (elim (Option-cases (parse_send_payload r)) [
        | inl p ↦ rw p (status-SameIncoming r s _)
        | inr ((body, target), p) ↦
            rw p (elim (Bool-cases (not (any_of (user_has_uuid target) s.users))) [
              | inl k ↦ rw k (status-SameIncoming r s _)
              | inr k ↦ rw k (
                  status-SameIncoming r
                    (send_message (new_message env author body target s)
                      (store_message env author body target s))
                    _
                  ∙ send_message-SameIncoming r (store_message env author body target s)
                      (new_message env author body target s))
            ])
      ])
    ])
  ]

  login_as-KeepsIncoming : (name : Bytes) → KeepsIncoming s (login_as env r name s)
  unfolding login_as create_user
  login_as-KeepsIncoming name out h = elim (Option-cases (find_user_by_name name s.users)) [
    | inl e ↦
        elim (Option-cases
          (generate_unique env.attempts (λ c. any_of (user_has_uuid c) s.users) env.draw s.draws)) [
            | inl g ↦ none_keeps s _ (rw (e, login_as, g) refl) out h
            | inr ((uuid, draws), g) ↦
                back s (create_user uuid name draws s)
                  (complete_login r (User.make uuid name true) (create_user uuid name draws s)) refl
                  (complete_login-SameIncoming r (create_user uuid name draws s)
                    (User.make uuid name true))
                  out (rw (e, login_as, g) refl) h
          ]
    | inr (user, e) ↦
        back s (record s { users = update_if (user_has_name name) add_logged_in s.users })
          (complete_login r user
            (record s { users = update_if (user_has_name name) add_logged_in s.users }))
          refl (complete_login-SameIncoming r _ user) out (rw (e, login_as) refl) h
  ]

  pub login-KeepsIncoming : KeepsIncoming s (handle_login_command env r s)
  login-KeepsIncoming out h = elim (handle_login-outcome env r s) [
    | Outcome.answered status e ↦ status_keeps s r status _ e out h
    | passed name f e ↦ login_as-KeepsIncoming name out (sym e ∙ h)
  ]
