-- ===== src/Network/Flushing.antt =====
-- What Sender::flushClientData (server/network/sender/sender.cpp) leaves of a client's queue, call after call.
use teams_mirror.Prelude.{
  ℕ, zero, suc, ◌-◌, ◌≤◌, ◌==◌, ◌≡◌, refl, ◌∙◌, ap, sym, subst, Bool, true, false, not, List, [],
  ◌∷◌, ◌++◌, length, take, drop, take-append-drop, length-drop, drop_all, arith, nat_eq, Bool-cases,
  inl, inr, is_empty, append_assoc, append-nil, All,
}
use teams_mirror.Bytes.{Bytes}
use teams_mirror.Map.{find, adjust}
use teams_mirror.Clients.{
  ClientManager, has_pending_write, get_queued_data, consume_queued_data, consume,
}
use teams_mirror.Network.{
  Calls, Tried, returned, failed, escaped, send_bytes, drop_sent, flush_client_data,
}

queue-consume :
    (fd n : ℕ) (m : ClientManager)
    → get_queued_data fd (consume_queued_data fd n m) ≡ consume n (get_queued_data fd m)
unfolding get_queued_data consume_queued_data find adjust
queue-consume fd n [] = ground arith
queue-consume fd n ((j, c) ∷ m) = ground (arith, queue-consume fd n m)

consume-drop : (n : ℕ) (q : Bytes) → consume n q ≡ drop n q
consume-drop n q = ground (arith, drop_all n q)

drop_none : (n : ℕ) → drop {A = ℕ} n [] ≡ []
drop_none zero = refl
drop_none (suc n) = refl

-- The number of bytes that a call sends.
unfoldable pub sent : Tried ℕ → ℕ
sent (returned n) = n
sent failed = 0
sent escaped = 0

abbrev gives : Bool → ClientManager → Tried (Bool × ClientManager)
gives b m = returned (b, m)

returned_inj : (b c : Bool) (m m' : ClientManager) → gives b m ≡ gives c m' → (b ≡ c) × (m ≡ m')
returned_inj b c m m' h = (cc, cc)

queue-drop_sent :
    (fd : ℕ) (m m' : ClientManager) (tried : Tried ℕ)
    → drop_sent fd m tried ≡ returned (true, m')
    → get_queued_data fd m' ≡ drop (sent tried) (get_queued_data fd m)
unfolding drop_sent sent
queue-drop_sent fd m m' (returned n) h = elim (Bool-cases (n == 0)) [
  | inl e ↦ absurd (ground (arith, (returned_inj false true m m' (rw e at h))))
  | inr e ↦
      ap (get_queued_data fd)
        (sym (returned_inj true true (consume_queued_data fd n m) m' (rw e at h)).1)
      ∙ queue-consume fd n m
      ∙ consume-drop n _
]
queue-drop_sent fd m m' failed h = absurd (ground (arith, h))
queue-drop_sent fd m m' escaped h = absurd (ground (arith, h))

pending-queue :
    (fd : ℕ) (m : ClientManager) → has_pending_write fd m ≡ not (is_empty (get_queued_data fd m))
unfolding has_pending_write get_queued_data find
pending-queue fd [] = refl
pending-queue fd ((j, c) ∷ m) = ground (arith, pending-queue fd m)

-- A client with nothing queued is left as it is.
flush_nothing :
    (calls : Calls ℕ) (fd : ℕ) (m : ClientManager)
    → get_queued_data fd m ≡ []
    → flush_client_data calls fd m ≡ returned (true, m)
unfolding flush_client_data
flush_nothing calls fd m h = rw (pending-queue fd m, h) refl

flush_something :
    (calls : Calls ℕ) (fd c : ℕ) (q : Bytes) (m : ClientManager)
    → get_queued_data fd m ≡ c ∷ q
    → flush_client_data calls fd m ≡ drop_sent fd m (send_bytes calls)
unfolding flush_client_data
flush_something calls fd c q m h = rw (pending-queue fd m, h) refl

queue-flush :
    (calls : Calls ℕ) (fd : ℕ) (m m' : ClientManager)
    → flush_client_data calls fd m ≡ returned (true, m')
    → get_queued_data fd m' ≡ drop (sent (send_bytes calls)) (get_queued_data fd m)
queue-flush calls fd m m' h = by_queue (get_queued_data fd m) refl
  where
    by_queue :
        (q : Bytes)
        → get_queued_data fd m ≡ q
        → get_queued_data fd m' ≡ drop (sent (send_bytes calls)) (get_queued_data fd m)
    by_queue [] e =
        ap (get_queued_data fd)
          (sym (returned_inj true true m m' (sym (flush_nothing calls fd m e) ∙ h)).1)
        ∙ e
        ∙ sym (ap (drop (sent (send_bytes calls))) e ∙ drop_none _)
    by_queue (c ∷ q) e =
        queue-drop_sent fd m m' (send_bytes calls) (sym (flush_something calls fd c q m e) ∙ h)

-- A sequence of calls of flushClientData that give true: the bytes that they write, and the clients after them.
pub data Flushed (fd : ℕ) : ClientManager → List (Calls ℕ) → Bytes → ClientManager → Type 0 where
  no_call : (m : ClientManager) → Flushed fd m [] [] m
  one_call :
      (m : ClientManager) (calls : Calls ℕ) (m' : ClientManager) (later : List (Calls ℕ))
      (written : Bytes) (m'' : ClientManager)
      → flush_client_data calls fd m ≡ returned (true, m')
      → Flushed fd m' later written m''
      → Flushed fd m
          (calls ∷ later)
          (take (sent (send_bytes calls)) (get_queued_data fd m) ++ written)
          m''

-- What a sequence of calls of flushClientData writes, with what is left in the queue behind it, is what was queued, in its order.
pub queue-Flushed :
    (fd : ℕ) (m : ClientManager) (all_calls : List (Calls ℕ)) (written : Bytes) (m' : ClientManager)
    → Flushed fd m all_calls written m'
    → written ++ get_queued_data fd m' ≡ get_queued_data fd m
queue-Flushed fd _ _ _ _ (no_call m) = refl
queue-Flushed fd _ _ _ _ (one_call m calls m' later written m'' e f) =
    append_assoc (take (sent (send_bytes calls)) (get_queued_data fd m)) written _
    ∙ ap (λ q. take (sent (send_bytes calls)) (get_queued_data fd m) ++ q)
        (queue-Flushed fd m' later written m'' f ∙ queue-flush calls fd m m' e)
    ∙ take-append-drop (sent (send_bytes calls)) (get_queued_data fd m)

-- The system takes at least a byte.
unfoldable pub SendsSome : Calls ℕ → Type 0
SendsSome calls = (n : ℕ) × (send_bytes calls ≡ returned (suc n))

drop_sent_some :
    (fd n : ℕ) (m : ClientManager)
    → drop_sent fd m (returned (suc n)) ≡ returned (true, consume_queued_data fd (suc n) m)
unfolding drop_sent
drop_sent_some fd n m = ground arith

flush_progress :
    (calls : Calls ℕ) (fd : ℕ) (m : ClientManager)
    → SendsSome calls
    → (m' : ClientManager) × (flush_client_data calls fd m ≡ returned (true, m'))
      × (length (get_queued_data fd m') ≤ length (get_queued_data fd m) - 1)
unfolding SendsSome sent
flush_progress calls fd m (n, s) = by_queue (get_queued_data fd m) refl
  where
    by_queue :
        (q : Bytes)
        → get_queued_data fd m ≡ q
        → (m' : ClientManager) × (flush_client_data calls fd m ≡ returned (true, m'))
          × (length (get_queued_data fd m') ≤ length (get_queued_data fd m) - 1)
    by_queue [] e = (m, flush_nothing calls fd m e, rw e (omega arith))
    by_queue (c ∷ q) e =
        let f = flush_something calls fd c q m e ∙ ap (drop_sent fd m) s ∙ drop_sent_some fd n m in
        (
          consume_queued_data fd (suc n) m,
          f,
          rw (queue-flush calls fd m _ f, s)
              (ground (arith, length-drop (suc n) (get_queued_data fd m))),
        )

length_nil : (q : Bytes) → length q ≤ 0 → q ≡ []
length_nil [] h = refl
length_nil (c ∷ q) h = absurd (omega (arith, h))

drained :
    (fd : ℕ) (all_calls : List (Calls ℕ)) (m : ClientManager)
    → All SendsSome all_calls
    → length (get_queued_data fd m) ≤ length all_calls
    → (written : Bytes) × (m' : ClientManager) × Flushed fd m all_calls written m'
      × (get_queued_data fd m' ≡ [])
drained fd [] m h enough = ([], m, no_call m, length_nil _ enough)
drained fd (calls ∷ later) m (one, h) enough =
    let (m', e, less) = flush_progress calls fd m one in
    let (written, m'', f, left) = drained fd later m' h (omega (arith, enough, less)) in
    (_, m'', one_call m calls m' later written m'' e f, left)

-- If the system takes at least a byte at each call, as many calls as the queue has bytes write the whole queue and leave it
-- empty.
pub empties_queue :
    (fd : ℕ) (all_calls : List (Calls ℕ)) (m : ClientManager)
    → All SendsSome all_calls
    → length (get_queued_data fd m) ≤ length all_calls
    → (m' : ClientManager) × Flushed fd m all_calls (get_queued_data fd m) m'
      × (get_queued_data fd m' ≡ [])
empties_queue fd all_calls m h enough =
    let (written, m', f, e) = drained fd all_calls m h enough in
    (
      m',
      subst (λ b. Flushed fd m all_calls b m')
          (sym (append-nil written)
            ∙ ap (λ q. written ++ q) (sym e)
            ∙ queue-Flushed fd m all_calls written m' f)
          f,
      e,
    )
