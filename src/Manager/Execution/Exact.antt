-- ===== src/Manager/Execution/Exact.antt =====
-- runPollLoop (server/core/server_manager/server_manager.cpp) has exactly the runs of the rules.
use teams_mirror.Prelude.{
  ℕ, ◌==◌, ◌≡◌, ◌↔◌, refl, ◌∙◌, ap, subst, List, [], ◌∷◌, map, nat_eq, arith, Bool-cases, inl, inr,
}
use teams_mirror.Clients.{ClientManager}
use teams_mirror.Network.{Events}
use teams_mirror.Server.{Env}
use teams_mirror.Manager.Service.{no_events, PollFd}
use teams_mirror.Manager.Rounds.{World, refresh_all_poll_interests, refresh_client_poll_interest}
use teams_mirror.Manager.Loop.{
  Wake, nothing_ready, stopped_there, poll_failed, ready, report, full_round, poll_loop, signalled,
}
use teams_mirror.Manager.Reached.{Round-cases, signalled_inj}
use teams_mirror.Manager.Execution.Rules.{
  polled, RoundRun, LoopRun, signal_came, signal_there, nothing_came, round_done,
}
use teams_mirror.Manager.Execution.Rounds.{full_round-RoundRun}

refresh-polled :
    (m : ClientManager) (listen_fd : ℕ) (ps : List PollFd)
    → refresh_all_poll_interests m listen_fd ps ≡ map (polled (λ fd. no_events) m listen_fd) ps
unfolding refresh_all_poll_interests refresh_client_poll_interest
refresh-polled m listen_fd [] = refl
refresh-polled m listen_fd (p ∷ ps) = elim (Bool-cases (p.fd == listen_fd)) [
  | inl e ↦ rw (e, refresh-polled m listen_fd ps) refl
  | inr e ↦ rw (e, refresh-polled m listen_fd ps) refl
]

report-polled :
    (f : ℕ → Events) (m : ClientManager) (listen_fd : ℕ) (ps : List PollFd)
    → report f (refresh_all_poll_interests m listen_fd ps) ≡ map (polled f m listen_fd) ps
unfolding report refresh_all_poll_interests refresh_client_poll_interest
report-polled f m listen_fd [] = refl
report-polled f m listen_fd (p ∷ ps) = elim (Bool-cases (p.fd == listen_fd)) [
  | inl e ↦ rw (e, report-polled f m listen_fd ps) refl
  | inr e ↦ rw (e, report-polled f m listen_fd ps) refl
]

module _ (env : Env) (listen_fd : ℕ) where
  poll_loop-LoopRun :
      (wakes : List Wake) (ps : List PollFd) (w w' : World)
      → poll_loop env listen_fd wakes ps w ≡ signalled w'
      → LoopRun env listen_fd wakes ps w w'
  unfolding poll_loop
  poll_loop-LoopRun [] ps w w' h =
      subst (λ v. LoopRun env listen_fd [] ps w v) (signalled_inj w w' h) (signal_came ps w)
  poll_loop-LoopRun (nothing_ready ∷ wakes) ps w w' h = nothing_came wakes ps w w' (
      subst (λ qs. LoopRun env listen_fd wakes qs w w')
        (refresh-polled w.server.clients listen_fd ps) (poll_loop-LoopRun wakes _ w w' h))
  poll_loop-LoopRun (stopped_there ∷ wakes) ps w w' h =
      subst (λ v. LoopRun env listen_fd (stopped_there ∷ wakes) ps w v) (signalled_inj w w' h)
        (signal_there wakes ps w)
  poll_loop-LoopRun (poll_failed ∷ wakes) ps w w' h = absurd (ground (arith, h))
  poll_loop-LoopRun (ready f served ∷ wakes) ps w w' h =
      let awake = report f (refresh_all_poll_interests w.server.clients listen_fd ps) in
      elim (Round-cases (full_round env listen_fd served awake w)) [
        | inl (qs, v, e) ↦
            round_done f served wakes ps qs w v w'
              (subst (λ start. RoundRun env listen_fd served 0 [] start w qs v)
                (report-polled f w.server.clients listen_fd ps)
                ((full_round-RoundRun env listen_fd served awake w qs v).0 e))
              (poll_loop-LoopRun wakes qs v w' (rw (e, poll_loop) at h))
        | inr (inl e) ↦ absurd (ground (arith, (rw (e, poll_loop) at h)))
        | inr (inr (inl e)) ↦ absurd (ground (arith, (rw (e, poll_loop) at h)))
        | inr (inr (inr (inl e))) ↦ absurd (ground (arith, (rw (e, poll_loop) at h)))
        | inr (inr (inr (inr e))) ↦ absurd (ground (arith, (rw (e, poll_loop) at h)))
      ]

  LoopRun-poll_loop :
      (wakes : List Wake) (ps : List PollFd) (w w' : World)
      → LoopRun env listen_fd wakes ps w w'
      → poll_loop env listen_fd wakes ps w ≡ signalled w'
  unfolding poll_loop
  LoopRun-poll_loop _ ps w _ (signal_came _ _) = refl
  LoopRun-poll_loop _ ps w _ (signal_there wakes _ _) = refl
  LoopRun-poll_loop _ ps w w' (nothing_came wakes _ _ _ h) =
      ap (λ qs. poll_loop env listen_fd wakes qs w) (refresh-polled w.server.clients listen_fd ps)
      ∙ LoopRun-poll_loop wakes _ w w' h
  LoopRun-poll_loop _ ps w w' (round_done f served wakes _ qs _ v _ r h) =
      let whole =
        ap (λ start. full_round env listen_fd served start w)
          (report-polled f w.server.clients listen_fd ps)
        ∙ (full_round-RoundRun env listen_fd served _ w qs v).1 r in
      rw (whole, poll_loop) (LoopRun-poll_loop wakes qs v w' h)

  -- The poll loop ends by the signal, in a world, exactly if the rules lead there from the same vector, the same world and the same
  -- answers of the system.
  pub poll_loop-exact :
      (wakes : List Wake) (ps : List PollFd) (w w' : World)
      → (poll_loop env listen_fd wakes ps w ≡ signalled w') ↔ LoopRun env listen_fd wakes ps w w'
  poll_loop-exact wakes ps w w' = (poll_loop-LoopRun wakes ps w w', LoopRun-poll_loop wakes ps w w')
