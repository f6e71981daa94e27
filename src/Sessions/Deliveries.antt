-- ===== src/Sessions/Deliveries.antt =====
-- Login and logout keep every session among those that its user's messages are delivered to.
use teams_mirror.Prelude.{
  ◌≡◌, refl, ◌∙◌, sym, subst, true, not, ◌==◌, Option, none, some, arith, any_of, update_if,
  some_inj, Bool-cases, Option-cases, inl, inr, nat_eq,
}
use teams_mirror.Bytes.{Bytes}
use teams_mirror.Map.{find, KeysOnce}
use teams_mirror.Server.{Env, Server, Request, queue_packet, queue_status}
use teams_mirror.Server.Queueing.{queue_each_lem}
use teams_mirror.Server.Uuid.{generate_unique}
use teams_mirror.Models.User.{User, add_logged_in}
use teams_mirror.Models.User
use teams_mirror.Commands.Lookup.{
  user_has_name, user_has_uuid, find_user_by_name, find_user_by_uuid,
}
use teams_mirror.Commands.Login.{complete_login, create_user, login_as, handle_login_command}
use teams_mirror.Commands.Login.Outcome.{answered, passed, handle_login-outcome}
use teams_mirror.Commands.Logout.{handle_logout_command, broadcast_logged_out_event}
use teams_mirror.Sessions.Receivers.{
  Delivers, register_session-Delivers, unregister_session-Delivers,
}

-- The invariant, of a server.
abbrev pub AllDelivered : Server → Type 0
AllDelivered s = Delivers s.authenticated_users_by_fd s.authenticated_users_by_uuid

complete_login-AllDelivered :
    (r : Request) (u : User) (s : Server) → AllDelivered s → AllDelivered (complete_login r u s)
unfolding complete_login queue_status queue_packet
complete_login-AllDelivered r u s h = rw queue_each_lem (register_session-Delivers r u s h)

same_result-AllDelivered : (s s' : Server) → AllDelivered s → some s ≡ some s' → AllDelivered s'
same_result-AllDelivered s s' h e = subst AllDelivered (some_inj e) h

none_given : {P : Type 0} (o : Option Server) (s' : Server) → o ≡ none → o ≡ some s' → P
none_given o s' e h = absurd (ground arith)

login_as-AllDelivered :
    (env : Env) (r : Request) (name : Bytes) (s s' : Server)
    → AllDelivered s
    → login_as env r name s ≡ some s'
    → AllDelivered s'
unfolding login_as create_user
login_as-AllDelivered env r name s s' h e = elim (Option-cases (find_user_by_name name s.users)) [
  | inr (u, f) ↦
      same_result-AllDelivered _ s'
        (complete_login-AllDelivered r u
          (record s { users = update_if (user_has_name name) add_logged_in s.users }) h)
        (rw (f, login_as) at e)
  | inl f ↦
      elim (Option-cases
        (generate_unique env.attempts (λ c. any_of (user_has_uuid c) s.users) env.draw s.draws)) [
          | inl g ↦ none_given _ s' (rw (f, login_as, g) refl) e
          | inr ((uuid, draws), g) ↦
              same_result-AllDelivered _ s'
                (complete_login-AllDelivered r (User.make uuid name true)
                  (create_user uuid name draws s) h)
                (rw (f, login_as, g) at e)
        ]
]

-- If every session is delivered to, every session is after a login request that gives a result, whether it is
-- refused, or logs a known or a new user in.
pub handle_login-AllDelivered :
    (env : Env) (r : Request) (s s' : Server)
    → AllDelivered s
    → handle_login_command env r s ≡ some s'
    → AllDelivered s'
unfolding queue_status queue_packet
handle_login-AllDelivered env r s s' h e = elim (handle_login-outcome env r s) [
  | answered status f ↦ same_result-AllDelivered (queue_status r status s) s' h (sym f ∙ e)
  | passed name f g ↦ login_as-AllDelivered env r name s s' h (sym g ∙ e)
]

-- If every session is delivered to and no descriptor is registered twice, every session that is left is delivered
-- to after any logout request.
pub handle_logout-AllDelivered :
    (r : Request) (s : Server)
    → KeysOnce s.authenticated_users_by_fd
    → AllDelivered s
    → AllDelivered (handle_logout_command r s)
unfolding handle_logout_command queue_status queue_packet broadcast_logged_out_event
handle_logout-AllDelivered r s once h = elim (Bool-cases (not (r.payload_size == 0))) [
  | inl e ↦ rw e h
  | inr e ↦ rw e (elim (Option-cases (find r.client_fd s.authenticated_users_by_fd)) [
    | inl f ↦ rw (f, handle_logout_command) h
    | inr (uuid, f) ↦
        rw (f, handle_logout_command)
          (elim (Option-cases (find_user_by_uuid uuid s.users)) [
            | inl n ↦
                rw (n, handle_logout_command)
                  (unregister_session-Delivers r.client_fd uuid s once h)
            | inr (u, n) ↦
                rw (n, handle_logout_command, queue_each_lem)
                  (unregister_session-Delivers r.client_fd uuid s once h)
          ])
  ])
]
