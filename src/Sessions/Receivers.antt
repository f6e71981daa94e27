-- ===== src/Sessions/Receivers.antt =====
-- The sessions that private messages are delivered to (authenticatedUsersByUUID).
use teams_mirror.Prelude.{
  ℕ, ◌≡◌, refl, ◌∙◌, true, false, ◌==◌, none, some, List, [], ◌∷◌, ◌++◌, arith, if◌then◌else◌, same,
  same_refl, any_of, any_of-append, remove_if, Option-cases, inl, inr, nat_eq, bytes_eq,
}
use teams_mirror.Bytes.{Bytes}
use teams_mirror.Map.{
  Map, find, erase, emplace, find-adjust, find-assign, find-emplace, find-erase, KeysOnce,
  KeysOnce-adjust, KeysOnce-emplace,
}
use teams_mirror.Server.{Server, Request}
use teams_mirror.Server.Queueing.{queue_each_lem}
use teams_mirror.Models.User.{User}
use teams_mirror.Models.User
use teams_mirror.Commands.Lookup.{find_user_by_uuid}
use teams_mirror.Commands.Login.{push_session, register_session}
use teams_mirror.Commands.Logout.{
  drop_session, unregister_session, handle_client_disconnection, broadcast_logged_out_event,
}
use teams_mirror.Commands.PrivateMessages.{sessions}

sessions-push :
    (uuid other : Bytes) (fd : ℕ) (m : Map Bytes (List ℕ))
    → sessions other (push_session uuid fd m)
      ≡ (if same uuid other then sessions other m ++ fd ∷ [] else sessions other m)
unfolding push_session
sessions-push uuid other fd m = ground (
  arith,
  find-adjust uuid other (λ fds. fds ++ fd ∷ []) (emplace uuid [] m),
  find-emplace uuid other [] m,
)

sessions-drop :
    (uuid other : Bytes) (fd : ℕ) (m : Map Bytes (List ℕ))
    → sessions other (drop_session uuid fd m)
      ≡ (if same uuid other then remove_if (λ x. x == fd) (sessions other m) else sessions other m)
unfolding drop_session
sessions-drop uuid other fd m = ground (
  arith,
  find-adjust uuid other (remove_if (λ x. x == fd)) (emplace uuid [] m),
  find-emplace uuid other [] m,
)

-- Every session can be delivered to: a descriptor where a user is logged in is among the user's sessions.
abbrev pub Delivers : Map ℕ Bytes → Map Bytes (List ℕ) → Type 0
Delivers by_fd by_uuid =
    (fd : ℕ) (uuid : Bytes)
    → find fd by_fd ≡ some uuid
    → any_of (λ other. other == fd) (sessions uuid by_uuid) ≡ true

any_of-remove_other :
    (fd gone : ℕ) (fds : List ℕ)
    → (gone == fd) ≡ false
    → any_of (λ x. x == fd) (remove_if (λ x. x == gone) fds) ≡ any_of (λ x. x == fd) fds
unfolding any_of remove_if
any_of-remove_other fd gone [] d = refl
any_of-remove_other fd gone (x ∷ fds) d = ground (arith, any_of-remove_other fd gone fds d)

-- If every session can be delivered to, registering a session at login keeps that so, the new session included.
pub register_session-Delivers :
    (r : Request) (u : User) (s : Server)
    → Delivers s.authenticated_users_by_fd s.authenticated_users_by_uuid
    → Delivers
        (register_session r u s).authenticated_users_by_fd
        (register_session r u s).authenticated_users_by_uuid
unfolding register_session any_of
register_session-Delivers r u s h fd uuid bound = rw sessions-push (
    ground (
      arith,
      find-assign r.client_fd fd (User.get_uuid u) s.authenticated_users_by_fd,
      any_of-append (λ x. x == fd) (sessions uuid s.authenticated_users_by_uuid) (r.client_fd ∷ []),
      h fd uuid,
      bound,
      same_refl (User.get_uuid u),
    ))

-- If every session can be delivered to and no descriptor is registered twice, ending a session keeps every
-- session that is left deliverable.
pub unregister_session-Delivers :
    (gone : ℕ) (v : Bytes) (s : Server)
    → KeysOnce s.authenticated_users_by_fd
    → Delivers s.authenticated_users_by_fd s.authenticated_users_by_uuid
    → Delivers
        (unregister_session gone v s).authenticated_users_by_fd
        (unregister_session gone v s).authenticated_users_by_uuid
unfolding unregister_session
unregister_session-Delivers gone v s once h fd uuid bound = rw sessions-drop (
    ground (
      arith,
      find-erase gone fd s.authenticated_users_by_fd once,
      any_of-remove_other fd gone (sessions uuid s.authenticated_users_by_uuid),
      h fd uuid,
      bound,
    ))

-- Where no key is registered twice and a user is logged in at two descriptors, the loss of the first connection
-- leaves the user logged in at the second, but no descriptor to deliver the user's private messages to.
pub disconnection-undelivered :
    (fd other : ℕ) (uuid : Bytes) (s : Server)
    → KeysOnce s.authenticated_users_by_fd
    → KeysOnce s.authenticated_users_by_uuid
    → find fd s.authenticated_users_by_fd ≡ some uuid
    → find other s.authenticated_users_by_fd ≡ some uuid
    → (fd == other) ≡ false
    → (find other (handle_client_disconnection fd s).authenticated_users_by_fd ≡ some uuid)
      × (sessions uuid (handle_client_disconnection fd s).authenticated_users_by_uuid ≡ [])
unfolding handle_client_disconnection unregister_session broadcast_logged_out_event
disconnection-undelivered fd other uuid s once_fd once_uuid here there apart =
    rw (here, handle_client_disconnection)
      (elim (Option-cases (find_user_by_uuid uuid s.users)) [
        | inl n ↦ rw (n, handle_client_disconnection) (still, erased)
        | inr (u, n) ↦ rw (n, handle_client_disconnection, queue_each_lem) (still, erased)
      ])
  where
    still : find other (erase fd s.authenticated_users_by_fd) ≡ some uuid
    still = find-erase fd other s.authenticated_users_by_fd once_fd ∙ ground (arith, there, apart)

    once_dropped : KeysOnce (drop_session uuid fd s.authenticated_users_by_uuid)
    once_dropped =
        unfold drop_session in KeysOnce-adjust uuid _ _ (KeysOnce-emplace uuid [] _ once_uuid)

    none_left : find uuid (erase uuid (drop_session uuid fd s.authenticated_users_by_uuid)) ≡ none
    none_left =
        find-erase uuid uuid (drop_session uuid fd s.authenticated_users_by_uuid) once_dropped
        ∙ ground (arith, same_refl uuid)

    erased : sessions uuid (erase uuid (drop_session uuid fd s.authenticated_users_by_uuid)) ≡ []
    erased = rw (none_left, sessions) refl
