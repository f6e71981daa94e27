-- ===== src/Manager/Execution/Rounds.antt =====
-- A round over the vector (server/core/server_manager/server_manager.cpp) has exactly the runs of the rules.
use teams_mirror.Prelude.{
  ℕ, zero, suc, ◌+◌, ◌==◌, ◌≡◌, ◌↔◌, ◌⊎◌, refl, sym, subst, true, false, List, [], ◌∷◌, ◌++◌,
  nat_eq, arith, Bool-cases, Option-cases, inl, inr,
}
use teams_mirror.Server.{Env, Server}
use teams_mirror.Manager.Service.{
  any_event, PollFd, Served, Kept, kept, dropped, unserved, uncaught, should_keep_client_connected,
}
use teams_mirror.Manager.Rounds.{
  World, polled_fds, Turned, onward, not_accepted, not_served, not_caught, turn_at, Round,
  served_all, no_fuel, poll_round, refresh_client_poll_interest, remove_client_of, after_service,
  after_accept, accept_client, client_poll_fd,
}
use teams_mirror.Manager.Loop.{full_round}
use teams_mirror.Manager.Reached.{Turned-cases, served_all_inj}
use teams_mirror.Manager.Ending.{full_round_ends}
use teams_mirror.Manager.Execution.Rules.{
  RoundRun, round_over, no_event, no_connection, connected, client_kept, client_lost,
}
use teams_mirror.Manager.Execution.Turns.{
  turn_quiet, turn_idle, turn_accept, turn_serve, turn_connected, turn_kept, turn_lost,
}

Kept-cases :
    (k : Kept)
    → ((s : Server) × (k ≡ kept s))
      ⊎ ((s : Server) × (k ≡ dropped s))
      ⊎ (k ≡ unserved)
      ⊎ (k ≡ uncaught)
Kept-cases (kept s) = inl (s, refl)
Kept-cases (dropped s) = inr (inl (s, refl))
Kept-cases unserved = inr (inr (inl refl))
Kept-cases uncaught = inr (inr (inr refl))

module _ (env : Env) (listen_fd : ℕ) (served : ℕ → Served) where
  module _ (n : ℕ) (before : List PollFd) (p : PollFd) (rest : List PollFd) (w : World)
      (ps : List PollFd) (w' : World) where
    -- A turn that goes on is a rule.
    abbrev IsRule : Turned → Type 0
    IsRule (onward b r v) =
        RoundRun env listen_fd served (n + 1) b r v ps w'
        → RoundRun env listen_fd served n before (p ∷ rest) w ps w'
    IsRule not_accepted = Unit
    IsRule not_served = Unit
    IsRule not_caught = Unit

    accept-IsRule :
        any_event p.revents ≡ true
        → (p.fd == listen_fd) ≡ true
        → p.revents.pollin ≡ true
        → IsRule
            (after_accept ((served n).accepted (polled_fds (before ++ p ∷ rest))) p before rest w)
    unfolding after_accept accept_client client_poll_fd
    accept-IsRule some_event here asks =
        elim (Option-cases ((served n).accepted (polled_fds (before ++ p ∷ rest)))) [
          | inl e ↦ subst (λ x. IsRule (after_accept x p before rest w)) (sym e) tt
          | inr (fd, e) ↦
              subst (λ x. IsRule (after_accept x p before rest w)) (sym e)
                (connected n before p rest w ps w' fd some_event here asks e)
        ]

    service-IsRule :
        any_event p.revents ≡ true
        → (p.fd == listen_fd) ≡ false
        → IsRule (
            after_service
              (should_keep_client_connected env (served n) p.revents p.fd w.server)
              p
              before
              rest
              w)
    unfolding after_service remove_client_of refresh_client_poll_interest
    service-IsRule some_event other =
        let back = λ (x : Kept). IsRule (after_service x p before rest w) in
        elim (Kept-cases (should_keep_client_connected env (served n) p.revents p.fd w.server)) [
          | inl (s, e) ↦
              subst back (sym e) (client_kept n before p rest w ps w' s some_event other e)
          | inr (inl (s, e)) ↦
              subst back (sym e) (client_lost n before p rest w ps w' s some_event other e)
          | inr (inr (inl e)) ↦ subst back (sym e) tt
          | inr (inr (inr e)) ↦ subst back (sym e) tt
        ]

    turn_at-IsRule : IsRule (turn_at env listen_fd (served n) p before rest w)
    turn_at-IsRule = elim (Bool-cases (any_event p.revents)) [
      | inr quiet ↦
          subst IsRule (sym (turn_quiet env listen_fd (served n) before p rest w quiet))
            (no_event n before p rest w ps w' quiet)
      | inl some_event ↦ elim (Bool-cases (p.fd == listen_fd)) [
        | inl here ↦ elim (Bool-cases p.revents.pollin) [
          | inr idle ↦
              subst IsRule
                (sym (turn_idle env listen_fd (served n) before p rest w some_event here idle))
                (no_connection n before p rest w ps w' some_event here idle)
          | inl asks ↦
              subst IsRule
                (sym (turn_accept env listen_fd (served n) before p rest w some_event here asks))
                (accept-IsRule some_event here asks)
        ]
        | inr other ↦
            subst IsRule
              (sym (turn_serve env listen_fd (served n) before p rest w some_event other))
              (service-IsRule some_event other)
      ]
    ]

  poll_round-RoundRun :
      (fuel n : ℕ) (before rest : List PollFd) (w : World) (ps : List PollFd) (w' : World)
      → poll_round fuel env listen_fd served n before rest w ≡ served_all ps w'
      → RoundRun env listen_fd served n before rest w ps w'
  unfolding poll_round
  poll_round-RoundRun zero n before rest w ps w' h = absurd (ground (arith, h))
  poll_round-RoundRun (suc fuel) n before [] w ps w' h =
      let (same, world) = served_all_inj before ps w w' h in
      subst (λ v. RoundRun env listen_fd served n before [] w ps v) world
        (subst (λ qs. RoundRun env listen_fd served n before [] w qs w) same
          (round_over n before w))
  poll_round-RoundRun (suc fuel) n before (p ∷ rest) w ps w' h =
      elim (Turned-cases (turn_at env listen_fd (served n) p before rest w)) [
        | inl (b, r, v, e) ↦
            subst (IsRule n before p rest w ps w') e (turn_at-IsRule n before p rest w ps w')
              (poll_round-RoundRun fuel (n + 1) b r v ps w' (rw (e, poll_round) at h))
        | inr (inl e) ↦ absurd (ground (arith, (rw (e, poll_round) at h)))
        | inr (inr (inl e)) ↦ absurd (ground (arith, (rw (e, poll_round) at h)))
        | inr (inr (inr e)) ↦ absurd (ground (arith, (rw (e, poll_round) at h)))
      ]

  -- What a round comes to where there is a run: its end, or no fuel.
  abbrev ComesTo : List PollFd → World → Round → Type 0
  ComesTo ps w' round = (round ≡ served_all ps w') ⊎ (round ≡ no_fuel)

  next_turn :
      (fuel n : ℕ) (before : List PollFd) (p : PollFd) (rest : List PollFd) (w : World)
      (b r : List PollFd) (v : World) (ps : List PollFd) (w' : World)
      → turn_at env listen_fd (served n) p before rest w ≡ onward b r v
      → ComesTo ps w' (poll_round fuel env listen_fd served (n + 1) b r v)
      → ComesTo ps w' (poll_round (suc fuel) env listen_fd served n before (p ∷ rest) w)
  unfolding poll_round
  next_turn fuel n before p rest w b r v ps w' e h = rw (e, poll_round) h

  RoundRun-poll_round :
      (fuel n : ℕ) (before rest : List PollFd) (w : World) (ps : List PollFd) (w' : World)
      → RoundRun env listen_fd served n before rest w ps w'
      → ComesTo ps w' (poll_round fuel env listen_fd served n before rest w)
  RoundRun-poll_round zero n before rest w ps w' h = unfold poll_round in inr refl
  RoundRun-poll_round (suc fuel) n before _ w ps w' (round_over _ _ _) =
      unfold poll_round in inl refl
  RoundRun-poll_round (suc fuel) n before _ w ps w' (no_event _ _ p rest _ _ _ e h) =
      next_turn fuel n before p rest w _ _ _ ps w'
        (turn_quiet env listen_fd (served n) before p rest w e)
        (RoundRun-poll_round fuel (n + 1) _ _ _ ps w' h)
  RoundRun-poll_round (suc fuel) n before _ w ps w' (no_connection _ _ p rest _ _ _ a b c h) =
      next_turn fuel n before p rest w _ _ _ ps w'
        (turn_idle env listen_fd (served n) before p rest w a b c)
        (RoundRun-poll_round fuel (n + 1) _ _ _ ps w' h)
  RoundRun-poll_round (suc fuel) n before _ w ps w' (connected _ _ p rest _ _ _ fd a b c e h) =
      next_turn fuel n before p rest w _ _ _ ps w'
        (turn_connected env listen_fd (served n) before p rest w a fd b c e)
        (RoundRun-poll_round fuel (n + 1) _ _ _ ps w' h)
  RoundRun-poll_round (suc fuel) n before _ w ps w' (client_kept _ _ p rest _ _ _ s a b e h) =
      next_turn fuel n before p rest w _ _ _ ps w'
        (turn_kept env listen_fd (served n) before p rest w a s b e)
        (RoundRun-poll_round fuel (n + 1) _ _ _ ps w' h)
  RoundRun-poll_round (suc fuel) n before _ w ps w' (client_lost _ _ p rest _ _ _ s a b e h) =
      next_turn fuel n before p rest w _ _ _ ps w'
        (turn_lost env listen_fd (served n) before p rest w a s b e)
        (RoundRun-poll_round fuel (n + 1) _ _ _ ps w' h)

  pub full_round-RoundRun :
      (ps : List PollFd) (w : World) (qs : List PollFd) (w' : World)
      → (full_round env listen_fd served ps w ≡ served_all qs w')
        ↔ RoundRun env listen_fd served 0 [] ps w qs w'
  full_round-RoundRun ps w qs w' = (
    (unfold full_round in λ h. poll_round-RoundRun _ 0 [] ps w qs w' h),
    λ h. ended ps w qs w' (unfold full_round in RoundRun-poll_round _ 0 [] ps w qs w' h),
  )
    where
      ended :
          (ps : List PollFd) (w : World) (qs : List PollFd) (w' : World)
          → ComesTo qs w' (full_round env listen_fd served ps w)
          → full_round env listen_fd served ps w ≡ served_all qs w'
      ended ps w qs w' (inl e) = e
      ended ps w qs w' (inr e) = absurd (full_round_ends env listen_fd served ps w e)
