-- ===== src/Manager/Polled.antt =====
-- A turn of the loop over the polled descriptors (server/core/server_manager/server_manager.cpp): the vector, the clients and the
-- sockets stay together, and the sessions stay consistent.
use teams_mirror.Prelude.{
  either_way, ℕ, ◌≡◌, refl, ◌∙◌, ap, sym, subst, false, Option, none, some, List, [], ◌∷◌, ◌++◌,
  arith, nat_eq, ◌==◌, append_assoc,
}
use teams_mirror.Clients.{add_client, remove_client, new_client}
use teams_mirror.Clients.Descriptors.{
  descriptors, among, Distinct, remove_first, descriptors-erase, descriptors-emplace,
  remove_first-append, Distinct-last, Distinct-without,
}
use teams_mirror.Server.{Env, Server}
use teams_mirror.Server.Uuid.Format.{DrawsDigits}
use teams_mirror.Commands.Logout.{handle_client_disconnection}
use teams_mirror.Sessions.{SessionsConsistent}
use teams_mirror.Sessions.Steps.{disconnection-Consistent}
use teams_mirror.Manager.Service.{
  no_events, any_event, PollFd, Served, Kept, kept, dropped, unserved, uncaught,
}
use teams_mirror.Manager.Service.Fine.{
  incoming-SameClients, SameClients, Leaves, Fine, service-Fine,
}
use teams_mirror.Manager.Rounds.{
  polled_fds, World, client_poll_fd, refresh_client_poll_interest, remove_client_of, accept_client,
  Turned, onward, after_accept, listened, after_service, turn_at,
}
use teams_mirror.Dispatcher.Incoming.Handlers.{disconnection-SameIncoming}

pub polled_fds-append :
    (ps qs : List PollFd) → polled_fds (ps ++ qs) ≡ polled_fds ps ++ polled_fds qs
unfolding polled_fds
polled_fds-append [] qs = refl
polled_fds-append (p ∷ ps) qs = ap (◌∷◌ p.fd) (polled_fds-append ps qs)

-- The listening descriptor is polled first, then those of the clients, in the order of both maps, each once.
pub record Polled (listen_fd : ℕ) (ps : List PollFd) (w : World) : Type 0 where
  pub clients : polled_fds ps ≡ listen_fd ∷ descriptors w.server.clients
  pub sockets : descriptors w.client_sockets ≡ descriptors w.server.clients
  pub distinct : Distinct (polled_fds ps)
  pub sessions : SessionsConsistent w.server

-- The system gives no descriptor that is polled already.
unfoldable pub AcceptsNew : Served → Type 0
AcceptsNew served =
    (open_fds : List ℕ) (fd : ℕ) → served.accepted open_fds ≡ some fd → among fd open_fds ≡ false

-- What holds where a turn goes on.
abbrev pub Goes : (List PollFd → World → Type 0) → Turned → Type 0
Goes P (onward before rest w) = P (before ++ rest) w
Goes P _ = Unit

-- The entry at the index may change, but for its descriptor.
replaced :
    (before rest : List PollFd) (p q : PollFd)
    → p.fd ≡ q.fd
    → polled_fds ((before ++ q ∷ []) ++ rest) ≡ polled_fds (before ++ p ∷ rest)
unfolding polled_fds
replaced before rest p q e =
    rw (append_assoc, polled_fds-append before (q ∷ rest), polled_fds-append before (p ∷ rest), e)
      refl

-- A vector of the same descriptors.
pub same_fds :
    (listen_fd : ℕ) (ps qs : List PollFd) (w : World)
    → polled_fds qs ≡ polled_fds ps
    → Polled listen_fd ps w
    → Polled listen_fd qs w
same_fds listen_fd ps qs w e h = record {
  clients = e ∙ h.clients;
  sockets = h.sockets;
  distinct = subst Distinct (sym e) h.distinct;
  sessions = h.sessions;
}

absent_client :
    (fd listen_fd : ℕ) (fds clients : List ℕ)
    → fds ≡ listen_fd ∷ clients
    → among fd fds ≡ false
    → among fd clients ≡ false
unfolding among
absent_client fd listen_fd fds clients e h =
    let there : among fd (listen_fd ∷ clients) ≡ false = subst (λ x. among fd x ≡ false) e h in
    ground arith

pub disconnection-SameClients :
    (fd : ℕ) (s : Server) → SameClients s.clients (handle_client_disconnection fd s).clients
disconnection-SameClients fd s =
    incoming-SameClients s.clients (handle_client_disconnection fd s).clients
      (disconnection-SameIncoming fd s)

-- The other entries stay where one is erased.
pub polled_fds-erase :
    (p : PollFd) (before rest : List PollFd)
    → Distinct (polled_fds (before ++ p ∷ rest))
    → remove_first p.fd (polled_fds (before ++ p ∷ rest)) ≡ polled_fds (before ++ rest)
unfolding polled_fds
polled_fds-erase p before rest d =
    ap (remove_first p.fd) (polled_fds-append before (p ∷ rest))
    ∙ remove_first-append p.fd (polled_fds before) (polled_fds rest)
        (subst Distinct (polled_fds-append before (p ∷ rest)) d)
    ∙ sym (polled_fds-append before rest)

remove_client-fds :
    (fd listen_fd : ℕ) (clients : List ℕ)
    → (fd == listen_fd) ≡ false
    → remove_first fd (listen_fd ∷ clients) ≡ listen_fd ∷ remove_first fd clients
unfolding remove_first
remove_client-fds fd listen_fd clients h = ground (arith, h)

module _ (env : Env) (listen_fd : ℕ) (p : PollFd) (before rest : List PollFd) (w : World)
    (h : Polled listen_fd (before ++ p ∷ rest) w) where
  accepted_fds :
      (fd : ℕ)
      → polled_fds
          ((before ++ record p { revents = no_events } ∷ []) ++ (rest ++ client_poll_fd fd ∷ []))
        ≡ polled_fds (before ++ p ∷ rest) ++ fd ∷ []
  unfolding client_poll_fd polled_fds
  accepted_fds fd =
      let q = record p { revents = no_events } in
      ap polled_fds (sym (append_assoc (before ++ q ∷ []) rest (client_poll_fd fd ∷ [])))
      ∙ polled_fds-append ((before ++ q ∷ []) ++ rest) (client_poll_fd fd ∷ [])
      ∙ ap (λ fds. fds ++ fd ∷ []) (replaced before rest p q refl)

  accepted-Polled :
      (fd : ℕ)
      → among fd (polled_fds (before ++ p ∷ rest)) ≡ false
      → Polled listen_fd
          ((before ++ record p { revents = no_events } ∷ []) ++ (rest ++ client_poll_fd fd ∷ []))
          (accept_client fd w)
  unfolding accept_client add_client
  accepted-Polled fd fresh =
      let absent = absent_client fd listen_fd _ _ h.clients fresh in
      record {
        clients =
            accepted_fds fd
            ∙ ap (λ fds. fds ++ fd ∷ []) h.clients
            ∙ ap (◌∷◌ listen_fd) (sym (descriptors-emplace fd new_client w.server.clients absent));
        sockets =
            descriptors-emplace fd fd w.client_sockets
              (subst (λ fds. among fd fds ≡ false) (sym h.sockets) absent)
            ∙ ap (λ fds. fds ++ fd ∷ []) h.sockets
            ∙ sym (descriptors-emplace fd new_client w.server.clients absent);
        distinct = subst Distinct (sym (accepted_fds fd)) (Distinct-last fd _ h.distinct fresh);
        sessions = h.sessions;
      }

  kept-Polled :
      (s : Server)
      → Fine w.server.clients s
      → Polled listen_fd
          ((before ++ refresh_client_poll_interest s.clients p ∷ []) ++ rest)
          (record w { server = s })
  unfolding refresh_client_poll_interest
  kept-Polled s (same, c) =
      same_fds listen_fd (before ++ p ∷ rest) _ (record w { server = s })
        (replaced before rest p _ refl)
        (record {
          clients = h.clients ∙ ap (◌∷◌ listen_fd) (sym same);
          sockets = h.sockets ∙ sym same;
          distinct = h.distinct;
          sessions = c;
        })

  dropped-Polled :
      (s : Server)
      → Fine w.server.clients s
      → (p.fd == listen_fd) ≡ false
      → Polled listen_fd (before ++ rest) (remove_client_of p.fd (record w { server = s }))
  unfolding remove_client_of remove_client polled_fds
  dropped-Polled s (same, c) other =
      let left =
        descriptors-erase p.fd (handle_client_disconnection p.fd s).clients
        ∙ ap (remove_first p.fd) (disconnection-SameClients p.fd s ∙ same) in
      record {
        clients =
            sym (polled_fds-erase p before rest h.distinct)
            ∙ ap (remove_first p.fd) h.clients
            ∙ remove_client-fds p.fd listen_fd _ other
            ∙ ap (◌∷◌ listen_fd) (sym left);
        sockets =
            descriptors-erase p.fd w.client_sockets ∙ ap (remove_first p.fd) h.sockets ∙ sym left;
        distinct = subst Distinct (sym (polled_fds-append before rest)) (
            Distinct-without p.fd (polled_fds before) (polled_fds rest)
              (subst Distinct (polled_fds-append before (p ∷ rest)) h.distinct));
        sessions = disconnection-Consistent s c p.fd;
      }

  skipped-Polled : Polled listen_fd ((before ++ p ∷ []) ++ rest) w
  skipped-Polled = same_fds listen_fd (before ++ p ∷ rest) _ w (replaced before rest p p refl) h

  after_accept-Goes :
      (given : Option ℕ)
      → ((fd : ℕ) → given ≡ some fd → among fd (polled_fds (before ++ p ∷ rest)) ≡ false)
      → Goes (Polled listen_fd) (after_accept given p before rest w)
  unfolding after_accept
  after_accept-Goes none new = tt
  after_accept-Goes (some fd) new = accepted-Polled fd (new fd refl)

  listened-Goes :
      (served : Served)
      → AcceptsNew served
      → Goes (Polled listen_fd) (listened served p before rest w)
  unfolding listened AcceptsNew
  listened-Goes served new =
      either_way (Goes (Polled listen_fd)) p.revents.pollin _ _ (λ i. after_accept-Goes _ (new _))
        (λ i.
          same_fds listen_fd (before ++ p ∷ rest) _ w
            (replaced before rest p (record p { revents = no_events }) refl) h)

  after_service-Goes :
      (k : Kept)
      → Leaves (Fine w.server.clients) k
      → (p.fd == listen_fd) ≡ false
      → Goes (Polled listen_fd) (after_service k p before rest w)
  unfolding after_service
  after_service-Goes (kept s) l other = kept-Polled s l
  after_service-Goes (dropped s) l other = dropped-Polled s l other
  after_service-Goes unserved l other = tt
  after_service-Goes uncaught l other = tt

  pub turn_at-Goes :
      (served : Served)
      → DrawsDigits env.draw
      → AcceptsNew served
      → Goes (Polled listen_fd) (turn_at env listen_fd served p before rest w)
  unfolding turn_at
  turn_at-Goes served digits new =
      either_way (Goes (Polled listen_fd)) (any_event p.revents) _ _
        (λ busy.
          either_way (Goes (Polled listen_fd)) (p.fd == listen_fd) _ _
            (λ l. listened-Goes served new)
            (λ other.
              after_service-Goes _
                (service-Fine env w.server.clients digits served p.revents p.fd w.server
                  (refl, h.sessions))
                other))
        (λ idle. skipped-Polled)
