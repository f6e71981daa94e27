-- ===== src/Manager/Service/Fine.antt =====
-- What the service of a client keeps: which clients there are, and the consistency of the sessions.
use teams_mirror.Prelude.{
  either_way, ℕ, zero, suc, ◌≡◌, refl, ◌∙◌, ap, sym, Bool, true, false, ◌||◌, not, Option, none,
  some, [], ◌∷◌, Option-cases, Bool-cases, inl, inr, arith, nat_eq, ◌==◌, is_empty, if◌then◌else◌,
}
use teams_mirror.Bytes.{Bytes}
use teams_mirror.Clients.{
  ClientManager, get_incoming_buffer, consume_incoming_buffer, append_to_incoming_buffer,
  consume_queued_data, has_pending_write, get_queued_data,
}
use teams_mirror.Clients.Incoming.{incoming}
use teams_mirror.Clients.Descriptors.{descriptors, descriptors-adjust, descriptors-incoming}
use teams_mirror.Network.{
  Events, Calls, Tried, returned, failed, escaped, recv_bytes, send_bytes, take_received, drop_sent,
  read_client_data, flush_client_data,
}
use teams_mirror.Server.{Env, Server}
use teams_mirror.Server.Uuid.Format.{DrawsDigits}
use teams_mirror.Dispatcher.{
  dispatch_command, next_packet, request_of, consume_packet, process_client_incoming_packets,
  Processed, finished, unanswered, out_of_fuel,
}
use teams_mirror.Dispatcher.Incoming.{dispatch-KeepsIncoming}
use teams_mirror.Sessions.{SessionsConsistent}
use teams_mirror.Sessions.Steps.{process-Consistent}
use teams_mirror.Manager.Service.{
  Served, Kept, kept, dropped, unserved, uncaught, handle_readable_event, catch,
  handle_writable_event, with_clients, after_packets, process_packets, serve_readable,
  serve_writable, keep_readable, keep_writable, should_keep_client_connected,
}

-- The same clients, with any buffers.
abbrev pub SameClients : ClientManager → ClientManager → Type 0
SameClients m m' = descriptors m' ≡ descriptors m

pub incoming-SameClients : (m m' : ClientManager) → incoming m' ≡ incoming m → SameClients m m'
incoming-SameClients m m' h =
    sym (descriptors-incoming m') ∙ ap (λ x. descriptors x) h ∙ descriptors-incoming m

finished_inj : (s t : Server) → finished s ≡ finished t → s ≡ t
finished_inj s t h = cc

consume-SameClients :
    (fd size : ℕ) (m : ClientManager) → SameClients m (consume_incoming_buffer fd size m)
unfolding consume_incoming_buffer
consume-SameClients fd size m = descriptors-adjust fd _ m

process-SameClients :
    (fuel : ℕ) (env : Env) (fd : ℕ) (s s' : Server)
    → process_client_incoming_packets fuel env fd s ≡ finished s'
    → SameClients s.clients s'.clients
unfolding process_client_incoming_packets
process-SameClients zero env fd s s' h = absurd (ground arith)
process-SameClients (suc fuel) env fd s s' h =
    elim (Option-cases (next_packet (get_incoming_buffer fd s.clients))) [
      | inl e ↦
          ap (λ x. descriptors x.clients)
            (sym (finished_inj s s' (rw (e, process_client_incoming_packets) at h)))
      | inr ((code, payload, size), e) ↦
          let request = request_of fd (get_incoming_buffer fd s.clients) payload in
          elim (Option-cases (dispatch_command env code request s)) [
            | inl d ↦ absurd (ground (arith, (rw (e, process_client_incoming_packets, d) at h)))
            | inr (t, d) ↦
                process-SameClients fuel env fd (consume_packet fd size t) s'
                  (rw (e, process_client_incoming_packets, d) at h)
                ∙ consume-SameClients fd size t.clients
                ∙ incoming-SameClients s.clients t.clients
                    (dispatch-KeepsIncoming env request s code t d)
          ]
    ]

-- What holds of the server that a service leaves, if it leaves one.
abbrev pub Leaves : (Server → Type 0) → Kept → Type 0
Leaves P (kept s) = P s
Leaves P (dropped s) = P s
Leaves P unserved = Unit
Leaves P uncaught = Unit

-- The clients are those of `m`, and the sessions are consistent.
abbrev pub Fine : ClientManager → Server → Type 0
Fine m s = SameClients m s.clients × SessionsConsistent s

-- What holds of the clients that a call gives, if it gives some.
abbrev pub GivesSame : ClientManager → Option (Bool × ClientManager) → Type 0
GivesSame m none = Unit
GivesSame m (some (open_left, m')) = SameClients m m'

-- The same of a call that may throw.
abbrev TriesSame : ClientManager → Tried (Bool × ClientManager) → Type 0
TriesSame m (returned (open_left, m')) = SameClients m m'
TriesSame m failed = Unit
TriesSame m escaped = Unit

catch-GivesSame :
    (m : ClientManager) (tried : Tried (Bool × ClientManager))
    → TriesSame m tried
    → GivesSame m (catch m tried)
unfolding catch
catch-GivesSame m (returned result) h = h
catch-GivesSame m failed h = refl
catch-GivesSame m escaped h = tt

take_received-TriesSame :
    (fd : ℕ) (m : ClientManager) (tried : Tried Bytes) → TriesSame m (take_received fd m tried)
unfolding take_received append_to_incoming_buffer
take_received-TriesSame fd m (returned []) = refl
take_received-TriesSame fd m (returned (c ∷ s)) = descriptors-adjust fd _ m
take_received-TriesSame fd m failed = tt
take_received-TriesSame fd m escaped = tt

drop_sent-TriesSame :
    (fd : ℕ) (m : ClientManager) (tried : Tried ℕ) → TriesSame m (drop_sent fd m tried)
unfolding drop_sent consume_queued_data
drop_sent-TriesSame fd m (returned sent) = elim (Bool-cases (sent == 0)) [
  | inl e ↦ rw e refl
  | inr e ↦ rw e (descriptors-adjust fd _ m)
]
drop_sent-TriesSame fd m failed = tt
drop_sent-TriesSame fd m escaped = tt

flush-TriesSame :
    (calls : Calls ℕ) (fd : ℕ) (m : ClientManager) → TriesSame m (flush_client_data calls fd m)
unfolding flush_client_data
flush-TriesSame calls fd m =
    elim (Bool-cases (not (has_pending_write fd m) || is_empty (get_queued_data fd m))) [
      | inl e ↦ rw e refl
      | inr e ↦ rw e (drop_sent-TriesSame fd m (send_bytes calls))
    ]

readable-GivesSame :
    (calls : Calls Bytes) (fd : ℕ) (m : ClientManager)
    → GivesSame m (handle_readable_event calls fd m)
unfolding handle_readable_event read_client_data
readable-GivesSame calls fd m =
    catch-GivesSame m _ (take_received-TriesSame fd m (recv_bytes calls))

if-GivesSame :
    (m : ClientManager) (b : Bool) (x y : Option (Bool × ClientManager))
    → GivesSame m x
    → GivesSame m y
    → GivesSame m (if b then x else y)
if-GivesSame m true x y h k = h
if-GivesSame m false x y h k = k

writable-GivesSame :
    (calls : Calls ℕ) (fd : ℕ) (m : ClientManager) → GivesSame m (handle_writable_event calls fd m)
unfolding handle_writable_event
writable-GivesSame calls fd m =
    if-GivesSame m (not (has_pending_write fd m)) (some (true, m))
      (catch m (flush_client_data calls fd m)) refl
      (catch-GivesSame m _ (flush-TriesSame calls fd m))

with_clients-Leaves :
    (P : Server → Type 0) (s : Server) (next : Server → Kept)
    (given : Option (Bool × ClientManager))
    → ((m : ClientManager) → SameClients s.clients m → P (record s { clients = m }))
    → ((m : ClientManager) → SameClients s.clients m → Leaves P (next (record s { clients = m })))
    → GivesSame s.clients given
    → Leaves P (with_clients s next given)
unfolding with_clients
with_clients-Leaves P s next none left on h = tt
with_clients-Leaves P s next (some (false, m)) left on h = left m h
with_clients-Leaves P s next (some (true, m)) left on h = on m h

after_packets-Leaves :
    (P : Server → Type 0) (result : Processed)
    → ((s : Server) → result ≡ finished s → P s)
    → Leaves P (after_packets result)
unfolding after_packets
after_packets-Leaves P (finished s) f = f s refl
after_packets-Leaves P unanswered f = tt
after_packets-Leaves P out_of_fuel f = tt

module _ (env : Env) (m : ClientManager) (digits : DrawsDigits env.draw) where
  process_packets-Fine :
      (fd : ℕ) (s : Server) → Fine m s → Leaves (Fine m) (process_packets env fd s)
  unfolding process_packets
  process_packets-Fine fd s (same, c) = after_packets-Leaves (Fine m) _ (λ s' e.
      (process-SameClients _ env fd s s' e ∙ same, process-Consistent env digits _ fd s s' c e))

  serve_readable-Fine :
      (calls : Calls Bytes) (fd : ℕ) (s : Server)
      → Fine m s
      → Leaves (Fine m) (serve_readable env calls fd s)
  unfolding serve_readable
  serve_readable-Fine calls fd s (same, c) =
      with_clients-Leaves (Fine m) s (process_packets env fd) _ (λ m' k. (k ∙ same, c))
        (λ m' k. process_packets-Fine fd (record s { clients = m' }) (k ∙ same, c))
        (readable-GivesSame calls fd s.clients)

  serve_writable-Fine :
      (calls : Calls ℕ) (fd : ℕ) (s : Server)
      → Fine m s
      → Leaves (Fine m) (serve_writable calls fd s)
  unfolding serve_writable
  serve_writable-Fine calls fd s (same, c) =
      with_clients-Leaves (Fine m) s kept _ (λ m' k. (k ∙ same, c)) (λ m' k. (k ∙ same, c))
        (writable-GivesSame calls fd s.clients)

  keep_readable-Fine :
      (served : Served) (e : Events) (fd : ℕ) (s : Server)
      → Fine m s
      → Leaves (Fine m) (keep_readable env served e fd s)
  unfolding keep_readable
  keep_readable-Fine served e fd s h = elim (Bool-cases e.pollin) [
    | inl i ↦ rw i (serve_readable-Fine served.reading fd s h)
    | inr i ↦ rw i h
  ]

  keep_writable-Fine :
      (served : Served) (e : Events) (fd : ℕ) (k : Kept)
      → Leaves (Fine m) k
      → Leaves (Fine m) (keep_writable served e fd k)
  unfolding keep_writable
  keep_writable-Fine served e fd (kept s) h = elim (Bool-cases e.pollout) [
    | inl o ↦ rw o (serve_writable-Fine served.writing fd s h)
    | inr o ↦ rw o h
  ]
  keep_writable-Fine served e fd (dropped s) h = h
  keep_writable-Fine served e fd unserved h = tt
  keep_writable-Fine served e fd uncaught h = tt

  -- The service of a client keeps the clients and the consistency of the sessions.
  pub service-Fine :
      (served : Served) (e : Events) (fd : ℕ) (s : Server)
      → Fine m s
      → Leaves (Fine m) (should_keep_client_connected env served e fd s)
  unfolding should_keep_client_connected
  service-Fine served e fd s h =
      either_way (Leaves (Fine m)) (e.pollerr || e.pollhup || e.pollnval) (dropped s) _ (λ _. h)
        (λ _. keep_writable-Fine served e fd _ (keep_readable-Fine served e fd s h))
