-- ===== src/Sessions/Steps.antt =====
-- Every command, every packet that is processed, and every lost connection keep the sessions consistent.
use teams_mirror.Prelude.{
  ℕ, zero, suc, ◌≡◌, refl, ◌∙◌, sym, subst, true, false, not, none, some, List, [], ◌∷◌, arith,
  ◌==◌, nat_eq, bytes_eq, Option-cases, Bool-cases, some_inj, ◌≢◌, inl, inr, any_of, find_if-none,
  find_if, update_if,
}
use teams_mirror.Bytes.{Bytes}
use teams_mirror.Map.{Map, find, assign}
use teams_mirror.Protocol.{
  StatusCode, CommandId, cmd_login, cmd_logout, cmd_users, cmd_user_info, cmd_send, cmd_messages,
  cmd_subscribe, cmd_unsubscribe, cmd_subscribed_list, cmd_use, cmd_create, cmd_list, cmd_info,
  err_bad_request,
}
use teams_mirror.Clients.{get_incoming_buffer}
use teams_mirror.Server.{Env, Server, Request, queue_packet, queue_status}
use teams_mirror.Server.Queueing.{queue_each_lem}
use teams_mirror.Server.Uuid.{generate_unique, is_uuid_format_valid}
use teams_mirror.Server.Uuid.Format.{DrawsDigits, view-valid}
use teams_mirror.Server.Uuid.Search.{generate_unique-unused}
use teams_mirror.Models.User.{User, add_logged_in}
use teams_mirror.Models.User
use teams_mirror.Commands.Lookup.{
  user_has_name, user_has_uuid, find_user_by_name, find_user_by_uuid,
}
use teams_mirror.Commands.Login.{complete_login, create_user, login_as, handle_login_command}
use teams_mirror.Commands.Login.Outcome.{answered, passed, handle_login-outcome}
use teams_mirror.Commands.Logout.{handle_logout_command, handle_client_disconnection}
use teams_mirror.Dispatcher.Table.{dispatch_command-exact}
use teams_mirror.Dispatcher.{
  run_handler, dispatch_command, next_packet, request_of, consume_packet,
  process_client_incoming_packets, finished, unanswered,
}
use teams_mirror.Dispatcher.Queries.{IsQuery, query-Answers}
use teams_mirror.Sessions.{Consistent, SessionsConsistent, AllKnown}
use teams_mirror.Sessions.Handlers.{
  users-complete_login, by_fd-complete_login, login-Consistent, logout-Consistent,
  create-Consistent,
}
use teams_mirror.Sessions.Others.{
  SameSessions, KeepsSessions, subscribe-SameSessions, unsubscribe-SameSessions, use-SameSessions,
  send-SameSessions, create-KeepsSessions,
}

SameSessions-Consistent :
    (s s' : Server) → SameSessions s s' → SessionsConsistent s → SessionsConsistent s'
SameSessions-Consistent s s' (us, fds) c = rw (us, fds) c

complete-Consistent :
    (r : Request) (u : User) (s : Server)
    → Consistent s.users (assign r.client_fd (User.get_uuid u) s.authenticated_users_by_fd)
    → SessionsConsistent (complete_login r u s)
complete-Consistent r u s c = rw (users-complete_login r u s, by_fd-complete_login r u s) c

-- The server of a result.
carry : (t s' : Server) → SessionsConsistent t → some t ≡ some s' → SessionsConsistent s'
carry t s' c h = subst SessionsConsistent (some_inj {a = t} {b = s'} h) c

status-Consistent :
    (r : Request) (status : StatusCode) (s s' : Server)
    → SessionsConsistent s
    → some (queue_status r status s) ≡ some s'
    → SessionsConsistent s'
unfolding queue_status
status-Consistent r status s s' c h = carry (queue_status r status s) s' c h

module _ (env : Env) (r : Request) (s : Server) (digits : DrawsDigits env.draw)
    (c : SessionsConsistent s) where
  made-Consistent :
      (name uuid : Bytes) (draws : ℕ)
      → find r.client_fd s.authenticated_users_by_fd ≡ none
      → any_of (user_has_uuid uuid) s.users ≡ false
      → is_uuid_format_valid uuid ≡ true
      → SessionsConsistent
          (complete_login r (User.make uuid name true) (create_user uuid name draws s))
  unfolding create_user User.make
  made-Consistent name uuid draws free fresh valid =
      complete-Consistent r (User.make uuid name true) (create_user uuid name draws s) (
        create-Consistent s.users s.authenticated_users_by_fd r.client_fd c
          (User.make uuid name true) (rw (view-valid uuid valid) fresh) refl free)

  login_as-Consistent :
      (name : Bytes) (s' : Server)
      → find r.client_fd s.authenticated_users_by_fd ≡ none
      → login_as env r name s ≡ some s'
      → SessionsConsistent s'
  unfolding login_as find_user_by_name
  login_as-Consistent name s' free h = elim (Option-cases (find_if (user_has_name name) s.users)) [
    | inl e ↦
        elim (Option-cases
          (generate_unique env.attempts (λ c. any_of (user_has_uuid c) s.users) env.draw s.draws)) [
            | inl g ↦ absurd (ground arith)
            | inr ((uuid, draws), g) ↦
                let (fresh, valid) =
                  generate_unique-unused env.attempts _ env.draw s.draws uuid draws digits g in
                carry _ s' (made-Consistent name uuid draws free fresh valid)
                  (rw (e, login_as, g) at h)
          ]
    | inr (u, e) ↦
        carry
          (complete_login r u
            (record s { users = update_if (user_has_name name) add_logged_in s.users }))
          s'
          (complete-Consistent r u _ (
            login-Consistent s.users s.authenticated_users_by_fd r.client_fd c (user_has_name name)
              u e free))
          (rw (e, login_as) at h)
  ]

  handle_login-Consistent :
      (s' : Server) → handle_login_command env r s ≡ some s' → SessionsConsistent s'
  handle_login-Consistent s' h = elim (handle_login-outcome env r s) [
    | answered status e ↦ status-Consistent r status s s' c (sym e ∙ h)
    | passed name free e ↦ login_as-Consistent name s' free (sym e ∙ h)
  ]

known-find :
    (users : List User) (fd : ℕ) (v : Bytes) (m : Map ℕ Bytes)
    → AllKnown users m
    → find fd m ≡ some v
    → any_of (user_has_uuid v) users ≡ true
unfolding find
known-find users fd v [] k h = absurd (ground arith)
known-find users fd v ((j, w) ∷ m) k h = elim (Bool-cases (j == fd)) [
  | inl e ↦
      subst (λ (x : Bytes). any_of (user_has_uuid x) users ≡ true)
        (some_inj {a = w} {b = v} (rw e at h)) k.0
  | inr e ↦ known-find users fd v m k.1 (rw e at h)
]

module _ (s : Server) (c : SessionsConsistent s) where
  -- The user of a session is found.
  session_user :
      (fd : ℕ) (v : Bytes)
      → find fd s.authenticated_users_by_fd ≡ some v
      → find_user_by_uuid v s.users ≢ none
  unfolding find_user_by_uuid
  session_user fd v h e = ground (
    arith,
    known-find s.users fd v s.authenticated_users_by_fd c.known h,
    find_if-none (user_has_uuid v) s.users e,
  )

  pub handle_logout-Consistent : (r : Request) → SessionsConsistent (handle_logout_command r s)
  unfolding handle_logout_command queue_status queue_packet
  handle_logout-Consistent r = elim (Bool-cases (not (r.payload_size == 0))) [
    | inl e ↦ rw e c
    | inr e ↦ rw e (elim (Option-cases (find r.client_fd s.authenticated_users_by_fd)) [
      | inl f ↦ rw f c
      | inr (v, f) ↦ rw f (elim (Option-cases (find_user_by_uuid v s.users)) [
        | inl n ↦ absurd (session_user r.client_fd v f n)
        | inr (u, n) ↦
            rw (n, queue_each_lem)
              (logout-Consistent s.users s.authenticated_users_by_fd r.client_fd c v u n f)
      ])
    ])
  ]

  -- If the sessions are consistent, they are so after the loss of any connection.
  pub disconnection-Consistent : (fd : ℕ) → SessionsConsistent (handle_client_disconnection fd s)
  unfolding handle_client_disconnection
  disconnection-Consistent fd = elim (Option-cases (find fd s.authenticated_users_by_fd)) [
    | inl f ↦ rw (f, handle_client_disconnection) c
    | inr (v, f) ↦
        rw (f, handle_client_disconnection)
          (elim (Option-cases (find_user_by_uuid v s.users)) [
            | inl n ↦ absurd (session_user fd v f n)
            | inr (u, n) ↦
                rw (n, queue_each_lem)
                  (logout-Consistent s.users s.authenticated_users_by_fd fd c v u n f)
          ])
  ]

query-SameSessions :
    (env : Env) (r : Request) (s : Server) (q : CommandId)
    → IsQuery q
    → KeepsSessions s (run_handler env q r s)
unfolding queue_packet
query-SameSessions env r s q h s' e =
    let (t, result, answer) = query-Answers env q r s h in ground (arith, e, result, answer.1)

finished_carry :
    (t s' : Server) → SessionsConsistent t → finished t ≡ finished s' → SessionsConsistent s'
finished_carry t s' c h = let e : t ≡ s' = cc in subst SessionsConsistent e c

unanswered_ne : (t : Server) → unanswered ≡ finished t → ⊥
unanswered_ne t h = cc

module _ (env : Env) (digits : DrawsDigits env.draw) where
  module _ (r : Request) (s : Server) (c : SessionsConsistent s) where
    same_result : (s' t : Server) → SameSessions s t → some t ≡ some s' → SessionsConsistent s'
    same_result s' t k h = carry t s' (SameSessions-Consistent s t k c) h

    -- If the draws are hexadecimal digits and the sessions are consistent, they are so after every command that gives
    -- a result: each user's counter of sessions is the number of the descriptors where it is logged in, no two users
    -- have one identifier, and every session is an existing user's.
    pub run_handler-Consistent :
        (command : CommandId) (s' : Server)
        → run_handler env command r s ≡ some s'
        → SessionsConsistent s'
    unfolding run_handler
    run_handler-Consistent cmd_login s' h = handle_login-Consistent env r s digits c s' h
    run_handler-Consistent cmd_logout s' h = carry _ s' (handle_logout-Consistent s c r) h
    run_handler-Consistent cmd_send s' h = same_result s' _ (send-SameSessions env r s) h
    run_handler-Consistent cmd_subscribe s' h = same_result s' _ (subscribe-SameSessions r s) h
    run_handler-Consistent cmd_unsubscribe s' h = same_result s' _ (unsubscribe-SameSessions r s) h
    run_handler-Consistent cmd_use s' h = same_result s' _ (use-SameSessions r s) h
    run_handler-Consistent cmd_create s' h =
        SameSessions-Consistent s s' (create-KeepsSessions env r s s' h) c
    run_handler-Consistent cmd_users s' h =
        SameSessions-Consistent s s' (query-SameSessions env r s cmd_users tt s' h) c
    run_handler-Consistent cmd_user_info s' h =
        SameSessions-Consistent s s' (query-SameSessions env r s cmd_user_info tt s' h) c
    run_handler-Consistent cmd_messages s' h =
        SameSessions-Consistent s s' (query-SameSessions env r s cmd_messages tt s' h) c
    run_handler-Consistent cmd_subscribed_list s' h =
        SameSessions-Consistent s s' (query-SameSessions env r s cmd_subscribed_list tt s' h) c
    run_handler-Consistent cmd_list s' h =
        SameSessions-Consistent s s' (query-SameSessions env r s cmd_list tt s' h) c
    run_handler-Consistent cmd_info s' h =
        SameSessions-Consistent s s' (query-SameSessions env r s cmd_info tt s' h) c

    dispatch-Consistent :
        (code : ℕ) (s' : Server) → dispatch_command env code r s ≡ some s' → SessionsConsistent s'
    dispatch-Consistent code s' h = elim (dispatch_command-exact env r s code) [
      | inl (command, _, e) ↦ run_handler-Consistent command s' (sym e ∙ h)
      | inr (_, e) ↦ status-Consistent r err_bad_request s s' c (sym e ∙ h)
    ]

  -- If the draws are hexadecimal digits and the sessions are consistent, they are so when the loop over a client's
  -- packets has finished, whatever bytes the client has sent.
  pub process-Consistent :
      (fuel fd : ℕ) (s s' : Server)
      → SessionsConsistent s
      → process_client_incoming_packets fuel env fd s ≡ finished s'
      → SessionsConsistent s'
  unfolding process_client_incoming_packets
  process-Consistent zero fd s s' c h = absurd (ground arith)
  process-Consistent (suc fuel) fd s s' c h =
      elim (Option-cases (next_packet (get_incoming_buffer fd s.clients))) [
        | inl e ↦ finished_carry s s' c (rw (e, process_client_incoming_packets) at h)
        | inr ((code, payload, size), e) ↦
            elim (Option-cases (
              dispatch_command env code (request_of fd (get_incoming_buffer fd s.clients) payload)
                s)) [
                  | inl d ↦
                      absurd (unanswered_ne s' (rw (e, process_client_incoming_packets, d) at h))
                  | inr (t, d) ↦
                      process-Consistent fuel fd (consume_packet fd size t) s'
                        (dispatch-Consistent
                          (request_of fd (get_incoming_buffer fd s.clients) payload) s c code t d)
                        (rw (e, process_client_incoming_packets, d) at h)
                ]
      ]
