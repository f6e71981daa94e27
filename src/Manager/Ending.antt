-- ===== src/Manager/Ending.antt =====
-- The loop over the polled descriptors (server/core/server_manager/server_manager.cpp) ends, with the fuel that a round is given.
use teams_mirror.Prelude.{
  ℕ, zero, suc, ◌+◌, ◌<◌, ◌≤◌, ◌≡◌, ◌≢◌, true, ◌==◌, List, [], ◌∷◌, ◌++◌, length, length-append,
  arith, inl, inr, if◌then◌else◌, Option, none, some, subst, either_way,
}
use teams_mirror.Server.{Env}
use teams_mirror.Manager.Service.{
  any_event, PollFd, Served, Kept, kept, dropped, unserved, uncaught,
}
use teams_mirror.Manager.Rounds.{
  World, client_poll_fd, Turned, onward, listened, after_accept, after_service, turn_at, no_fuel,
  poll_round,
}
use teams_mirror.Manager.Loop.{full_round}
use teams_mirror.Manager.Reached.{Turned-cases}

-- The entries that are ready; an entry that is appended is none of them.
unfoldable pub ready_entries : List PollFd → ℕ
ready_entries [] = 0
ready_entries (p ∷ ps) = (if any_event p.revents then 1 else 0) + ready_entries ps

-- The turns that are left at most.
abbrev pub turns_left : List PollFd → ℕ
turns_left ps = length ps + ready_entries ps

ready_entries-append :
    (ps qs : List PollFd) → ready_entries (ps ++ qs) ≡ ready_entries ps + ready_entries qs
unfolding ready_entries
ready_entries-append [] qs = ground arith
ready_entries-append (p ∷ ps) qs = ground (arith, ready_entries-append ps qs)

ready_entries_bound : (ps : List PollFd) → ready_entries ps ≤ length ps
unfolding ready_entries
ready_entries_bound [] = ground arith
ready_entries_bound (p ∷ ps) = ground (arith, ready_entries_bound ps)

-- Each turn takes one away.
abbrev Shrinks : ℕ → Turned → Type 0
Shrinks n (onward before rest w) = turns_left rest < n
Shrinks n _ = Unit

appended_left :
    (fd : ℕ) (rest : List PollFd)
    → turns_left (rest ++ client_poll_fd fd ∷ []) ≡ suc (turns_left rest)
unfolding client_poll_fd ready_entries
appended_left fd rest = ground (
  arith,
  length-append rest (client_poll_fd fd ∷ []),
  ready_entries-append rest (client_poll_fd fd ∷ []),
)

after_accept-Shrinks :
    (given : Option ℕ) (p : PollFd) (before rest : List PollFd) (w : World)
    → any_event p.revents ≡ true
    → Shrinks (turns_left (p ∷ rest)) (after_accept given p before rest w)
unfolding after_accept ready_entries
after_accept-Shrinks none p before rest w busy = tt
after_accept-Shrinks (some fd) p before rest w busy = ground (arith, appended_left fd rest, busy)

listened-Shrinks :
    (served : Served) (p : PollFd) (before rest : List PollFd) (w : World)
    → any_event p.revents ≡ true
    → Shrinks (turns_left (p ∷ rest)) (listened served p before rest w)
unfolding listened ready_entries
listened-Shrinks served p before rest w busy =
    either_way (Shrinks (turns_left (p ∷ rest))) p.revents.pollin _ _
      (λ _. after_accept-Shrinks _ p before rest w busy) (λ _. ground arith)

after_service-Shrinks :
    (k : Kept) (p : PollFd) (before rest : List PollFd) (w : World)
    → Shrinks (turns_left (p ∷ rest)) (after_service k p before rest w)
unfolding after_service ready_entries
after_service-Shrinks (kept s) p before rest w = ground arith
after_service-Shrinks (dropped s) p before rest w = ground arith
after_service-Shrinks unserved p before rest w = tt
after_service-Shrinks uncaught p before rest w = tt

turn_at-Shrinks :
    (env : Env) (listen_fd : ℕ) (served : Served) (p : PollFd) (before rest : List PollFd)
    (w : World)
    → Shrinks (turns_left (p ∷ rest)) (turn_at env listen_fd served p before rest w)
unfolding turn_at ready_entries
turn_at-Shrinks env listen_fd served p before rest w =
    either_way (Shrinks (turns_left (p ∷ rest))) (any_event p.revents) _ _
      (λ busy.
        either_way (Shrinks (turns_left (p ∷ rest))) (p.fd == listen_fd) _ _
          (λ _. listened-Shrinks served p before rest w busy)
          (λ _. after_service-Shrinks _ p before rest w))
      (λ _. ground arith)

poll_round_ends :
    (fuel : ℕ) (env : Env) (listen_fd : ℕ) (served : ℕ → Served) (n : ℕ) (before rest : List PollFd)
    (w : World)
    → turns_left rest < fuel
    → poll_round fuel env listen_fd served n before rest w ≢ no_fuel
unfolding poll_round
poll_round_ends zero env listen_fd served n before rest w enough h = omega (arith, enough)
poll_round_ends (suc fuel) env listen_fd served n before [] w enough h = ground (arith, h)
poll_round_ends (suc fuel) env listen_fd served n before (p ∷ rest) w enough h =
    elim (Turned-cases (turn_at env listen_fd (served n) p before rest w)) [
      | inl (b, r, v, e) ↦
          poll_round_ends fuel env listen_fd served (n + 1) b r v
            (omega (
              arith,
              enough,
              subst (Shrinks (turns_left (p ∷ rest))) e
                  (turn_at-Shrinks env listen_fd (served n) p before rest w),
            ))
            (rw (e, poll_round) at h)
      | inr (inl e) ↦ ground (arith, (rw (e, poll_round) at h))
      | inr (inr (inl e)) ↦ ground (arith, (rw (e, poll_round) at h))
      | inr (inr (inr e)) ↦ ground (arith, (rw (e, poll_round) at h))
    ]

-- A round has fuel enough, however many connections are accepted in it: the loop over the polled descriptors comes to its
-- end, or an exception or a handler ends it.
pub full_round_ends :
    (env : Env) (listen_fd : ℕ) (served : ℕ → Served) (ps : List PollFd) (w : World)
    → full_round env listen_fd served ps w ≢ no_fuel
unfolding full_round
full_round_ends env listen_fd served ps w =
    poll_round_ends _ env listen_fd served 0 [] ps w (omega (arith, ready_entries_bound ps))
