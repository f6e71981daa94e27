-- ===== src/Clients/Incoming.antt =====
-- The incoming buffers of all clients, and the operations that leave them alone.
use teams_mirror.Prelude.{ℕ, ◌≡◌, refl, [], ◌∷◌, Option, none, some, arith, nat_eq}
use teams_mirror.Bytes.{Bytes}
use teams_mirror.Map.{Map, find, adjust}
use teams_mirror.Clients.{
  ClientManager, queue_data_to_send, set_context, get_incoming_buffer, consume,
  consume_incoming_buffer,
}

unfoldable pub incoming : ClientManager → Map ℕ Bytes
incoming [] = []
incoming ((fd, c) ∷ m) = (fd, c.incoming_buffer) ∷ incoming m

pub incoming-queue :
    (fd : ℕ) (p : Bytes) (m : ClientManager) → incoming (queue_data_to_send fd p m) ≡ incoming m
unfolding incoming queue_data_to_send adjust
incoming-queue fd p [] = refl
incoming-queue fd p ((j, c) ∷ m) = ground (arith, incoming-queue fd p m)

pub incoming-set_context :
    (fd : ℕ) (a b c : Bytes) (m : ClientManager) → incoming (set_context fd a b c m) ≡ incoming m
unfolding incoming set_context adjust
incoming-set_context fd a b c [] = refl
incoming-set_context fd a b c ((j, x) ∷ m) = ground (arith, incoming-set_context fd a b c m)

abbrev pub or_empty : Option Bytes → Bytes
or_empty none = []
or_empty (some b) = b

pub get_incoming-find :
    (fd : ℕ) (m : ClientManager) → get_incoming_buffer fd m ≡ or_empty (find fd (incoming m))
unfolding incoming get_incoming_buffer find
get_incoming-find fd [] = refl
get_incoming-find fd ((j, c) ∷ m) = ground (arith, get_incoming-find fd m)

pub get_incoming-consume :
    (fd size : ℕ) (m : ClientManager)
    → get_incoming_buffer fd (consume_incoming_buffer fd size m)
      ≡ consume size (get_incoming_buffer fd m)
unfolding get_incoming_buffer consume_incoming_buffer find adjust
get_incoming-consume fd size [] = ground arith
get_incoming-consume fd size ((j, c) ∷ m) = ground (arith, get_incoming-consume fd size m)
