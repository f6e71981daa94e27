-- ===== src/Manager/Reached.antt =====
-- The states that runPollLoop (server/core/server_manager/server_manager.cpp) reaches.
use teams_mirror.Prelude.{
  ◌⊎◌, ℕ, ◌≡◌, refl, ◌∙◌, ap, sym, subst, List, [], ◌∷◌, ◌++◌, inl, inr, arith, nat_eq, append-nil,
  any_of,
}
use teams_mirror.Models.User.{User, reset_logged_in}
use teams_mirror.Models.User
use teams_mirror.Models.Team.{Team}
use teams_mirror.Models.Message.{Message}
use teams_mirror.Clients.{ClientManager}
use teams_mirror.Clients.Descriptors.{descriptors, among}
use teams_mirror.Network.{Events}
use teams_mirror.Server.{Env}
use teams_mirror.Server.Uuid.Format.{DrawsDigits}
use teams_mirror.Sessions.{DistinctUuids, Counted, count_sessions}
use teams_mirror.Commands.Lookup.{user_has_uuid}
use teams_mirror.Bytes.{Bytes}
use teams_mirror.Manager.Service.{no_events, only_pollin, PollFd, Served}
use teams_mirror.Manager.Polled.{Polled, AcceptsNew, Goes, same_fds, turn_at-Goes}
use teams_mirror.Manager.Rounds.{
  polled_fds, Round, served_all, accept_failed, service_failed, exception_left, no_fuel, World,
  refresh_client_poll_interest, refresh_all_poll_interests, Turned, onward, not_accepted,
  not_served, not_caught, turn_at,
}
use teams_mirror.Manager.Loop.{signalled, report, started, reset_each}

-- The states at the index of the loop over the vector, with the entries before it and from it on.
pub data Reached (env : Env) (listen_fd : ℕ) : List PollFd → List PollFd → World → Type 0 where
  start :
      (users : List User) (teams : List Team) (messages : List Message)
      → DistinctUuids users
      → Reached env listen_fd
          (record { fd = listen_fd; events = only_pollin; revents = no_events } ∷ [])
          []
          (started users teams messages)
  nothing_reported :
      (ps : List PollFd) (w : World)
      → Reached env listen_fd ps [] w
      → Reached env listen_fd (refresh_all_poll_interests w.server.clients listen_fd ps) [] w
  next_round :
      (ps : List PollFd) (w : World) (f : ℕ → Events)
      → Reached env listen_fd ps [] w
      → Reached env listen_fd []
          (report f (refresh_all_poll_interests w.server.clients listen_fd ps))
          w
  next_turn :
      (before : List PollFd) (p : PollFd) (rest : List PollFd) (w : World) (served : Served)
      (before' rest' : List PollFd) (w' : World)
      → Reached env listen_fd before (p ∷ rest) w
      → AcceptsNew served
      → turn_at env listen_fd served p before rest w ≡ onward before' rest' w'
      → Reached env listen_fd before' rest' w'

polled_fds-report : (f : ℕ → Events) (ps : List PollFd) → polled_fds (report f ps) ≡ polled_fds ps
unfolding polled_fds report
polled_fds-report f [] = refl
polled_fds-report f (p ∷ ps) = ap (◌∷◌ p.fd) (polled_fds-report f ps)

polled_fds-refresh :
    (m : ClientManager) (listen_fd : ℕ) (ps : List PollFd)
    → polled_fds (refresh_all_poll_interests m listen_fd ps) ≡ polled_fds ps
unfolding polled_fds refresh_all_poll_interests refresh_client_poll_interest
polled_fds-refresh m listen_fd [] = refl
polled_fds-refresh m listen_fd (p ∷ ps) = ground (arith, polled_fds-refresh m listen_fd ps)

any_of-reset_each :
    (uuid : Bytes) (users : List User)
    → any_of (user_has_uuid uuid) (reset_each users) ≡ any_of (user_has_uuid uuid) users
unfolding reset_each reset_logged_in any_of
any_of-reset_each uuid [] = refl
any_of-reset_each uuid (user ∷ users) = rw (any_of-reset_each uuid users) refl

reset_each-DistinctUuids :
    (users : List User) → DistinctUuids users → DistinctUuids (reset_each users)
unfolding reset_each reset_logged_in
reset_each-DistinctUuids [] d = tt
reset_each-DistinctUuids (user ∷ users) d =
    (any_of-reset_each (User.get_uuid user) users ∙ d.0, reset_each-DistinctUuids users d.1)

reset_each-Counted :
    (users : List User) → Counted (λ uuid. count_sessions uuid []) (reset_each users)
unfolding reset_each reset_logged_in count_sessions
reset_each-Counted [] = tt
reset_each-Counted (user ∷ users) = (refl, reset_each-Counted users)

started-Polled :
    (listen_fd : ℕ) (users : List User) (teams : List Team) (messages : List Message)
    → DistinctUuids users
    → Polled listen_fd
        (record { fd = listen_fd; events = only_pollin; revents = no_events } ∷ [])
        (started users teams messages)
unfolding started polled_fds descriptors among
started-Polled listen_fd users teams messages d = record {
  clients = refl;
  sockets = refl;
  distinct = (refl, tt);
  sessions = record {
    counted = reset_each-Counted users;
    distinct = reset_each-DistinctUuids users d;
    known = tt;
  };
}

-- In every state that the poll loop reaches, the vector of polled descriptors holds the listening one and then the descriptors of
-- the clients, in the order in which the list that models the map of clients holds them, and the one of sockets too; each descriptor once; and the sessions
-- are consistent. The loaded users have different identifiers, the draws are hexadecimal digits, and no descriptor
-- that the system gives for an accepted connection is polled already.
pub Reached-Polled :
    (env : Env) (listen_fd : ℕ) (before rest : List PollFd) (w : World)
    → DrawsDigits env.draw
    → Reached env listen_fd before rest w
    → Polled listen_fd (before ++ rest) w
Reached-Polled env listen_fd _ _ _ digits (start users teams messages d) =
    started-Polled listen_fd users teams messages d
Reached-Polled env listen_fd _ _ _ digits (nothing_reported ps w r) =
    subst (λ qs. Polled listen_fd qs w) (sym (append-nil _))
      (same_fds listen_fd ps _ w (polled_fds-refresh w.server.clients listen_fd ps) (
        subst (λ qs. Polled listen_fd qs w) (append-nil ps)
          (Reached-Polled env listen_fd ps [] w digits r)))
Reached-Polled env listen_fd _ _ _ digits (next_round ps w f r) =
    same_fds listen_fd ps _ w
      (polled_fds-report f _ ∙ polled_fds-refresh w.server.clients listen_fd ps)
      (subst (λ qs. Polled listen_fd qs w) (append-nil ps)
        (Reached-Polled env listen_fd ps [] w digits r))
Reached-Polled env listen_fd _ _ _ digits
      (next_turn b p r v served before' rest' w' reached new e) =
    subst (Goes (Polled listen_fd)) e (
      turn_at-Goes env listen_fd p b r v (Reached-Polled env listen_fd b (p ∷ r) v digits reached)
        served digits new)

pub served_all_inj :
    (ps qs : List PollFd) (v w : World) → served_all ps v ≡ served_all qs w → (ps ≡ qs) × (v ≡ w)
served_all_inj ps qs v w h = (cc, cc)

pub Turned-cases :
    (t : Turned)
    → ((before : List PollFd) × (rest : List PollFd) × (w : World) × (t ≡ onward before rest w))
      ⊎ (t ≡ not_accepted)
      ⊎ (t ≡ not_served)
      ⊎ (t ≡ not_caught)
Turned-cases (onward before rest w) = inl (before, rest, w, refl)
Turned-cases not_accepted = inr (inl refl)
Turned-cases not_served = inr (inr (inl refl))
Turned-cases not_caught = inr (inr (inr refl))

pub Round-cases :
    (r : Round)
    → ((ps : List PollFd) × (w : World) × (r ≡ served_all ps w))
      ⊎ (r ≡ accept_failed)
      ⊎ (r ≡ service_failed)
      ⊎ (r ≡ exception_left)
      ⊎ (r ≡ no_fuel)
Round-cases (served_all ps w) = inl (ps, w, refl)
Round-cases accept_failed = inr (inl refl)
Round-cases service_failed = inr (inr (inl refl))
Round-cases exception_left = inr (inr (inr (inl refl)))
Round-cases no_fuel = inr (inr (inr (inr refl)))

pub signalled_inj : (w w' : World) → signalled w ≡ signalled w' → w ≡ w'
signalled_inj w w' h = cc
