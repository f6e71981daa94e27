-- ===== src/Clients.antt =====
-- server/core/client_manager/: the buffers and the context of each connected client. A descriptor is a
-- number; -1, which no client has, is not modelled.
pub mod Incoming
pub mod Descriptors
use teams_mirror.Prelude.{
  ℕ, ◌-◌, Bool, true, false, not, Option, none, some, List, [], ◌++◌, if◌then◌else◌, ltb, leb,
  length, take, drop, is_empty, replicate, nat_eq,
}
use teams_mirror.Bytes.{Bytes, view}
use teams_mirror.Map.{Map, find, contains, erase, adjust, emplace}
use teams_mirror.Protocol.Limits.{uuid_length}
use teams_mirror.Fields.{zeroed}

pub record Client : Type 0 where
  pub incoming_buffer : Bytes
  pub outgoing_buffer : Bytes
  pub ctx_team_uuid : Bytes
  pub ctx_channel_uuid : Bytes
  pub ctx_thread_uuid : Bytes

-- copyUuid: the array is filled with NUL first.
unfoldable pub copy_uuid : Bytes → Bytes → Bytes
copy_uuid destination source =
    let max_len = length destination - 1 in
    let n = if ltb (length source) max_len then length source else max_len in
    take n source ++ zeroed (length destination - n)

-- readUuid
unfoldable pub read_uuid : Bytes → Bytes
unfolding view
read_uuid source = view source

abbrev pub no_uuid : Bytes
no_uuid = zeroed uuid_length

abbrev pub new_client : Client
new_client = record {
  incoming_buffer = [];
  outgoing_buffer = [];
  ctx_team_uuid = no_uuid;
  ctx_channel_uuid = no_uuid;
  ctx_thread_uuid = no_uuid;
}

-- Client::setContext
unfoldable pub set_client_context : Bytes → Bytes → Bytes → Client → Client
unfolding copy_uuid
set_client_context team_uuid channel_uuid thread_uuid c = record c {
  ctx_team_uuid = copy_uuid c.ctx_team_uuid team_uuid;
  ctx_channel_uuid = copy_uuid c.ctx_channel_uuid channel_uuid;
  ctx_thread_uuid = copy_uuid c.ctx_thread_uuid thread_uuid;
}

-- ClientManager
abbrev pub ClientManager : Type 0
ClientManager = Map ℕ Client

unfoldable pub add_client : ℕ → ClientManager → ClientManager
add_client fd m = emplace fd new_client m

unfoldable pub remove_client : ℕ → ClientManager → ClientManager
remove_client fd m = erase fd m

unfoldable pub has_client : ℕ → ClientManager → Bool
has_client fd m = contains fd m

-- A value read from a client, with the value for a descriptor that has none.
abbrev pub read_client {ℓ} : {A : Type ℓ} → (Client → A) → A → Option Client → A
read_client f absent none = absent
read_client f absent (some c) = f c

unfoldable pub has_pending_write : ℕ → ClientManager → Bool
has_pending_write fd m = read_client (λ c. not (is_empty c.outgoing_buffer)) false (find fd m)

unfoldable pub append_to_incoming_buffer : ℕ → Bytes → ClientManager → ClientManager
append_to_incoming_buffer fd bytes m =
    adjust fd (λ c. record c { incoming_buffer = c.incoming_buffer ++ bytes }) m

unfoldable pub get_incoming_buffer : ℕ → ClientManager → Bytes
get_incoming_buffer fd m = read_client (λ c. c.incoming_buffer) [] (find fd m)

unfoldable pub clear_incoming_buffer : ℕ → ClientManager → ClientManager
clear_incoming_buffer fd m = adjust fd (λ c. record c { incoming_buffer = [] }) m

-- The rest of a buffer behind the consumed bytes.
abbrev pub consume : ℕ → Bytes → Bytes
consume consumed buffer = if leb (length buffer) consumed then [] else drop consumed buffer

unfoldable pub consume_incoming_buffer : ℕ → ℕ → ClientManager → ClientManager
consume_incoming_buffer fd consumed m =
    adjust fd (λ c. record c { incoming_buffer = consume consumed c.incoming_buffer }) m

unfoldable pub queue_data_to_send : ℕ → Bytes → ClientManager → ClientManager
queue_data_to_send fd bytes m =
    adjust fd (λ c. record c { outgoing_buffer = c.outgoing_buffer ++ bytes }) m

unfoldable pub get_queued_data : ℕ → ClientManager → Bytes
get_queued_data fd m = read_client (λ c. c.outgoing_buffer) [] (find fd m)

unfoldable pub get_queued_size : ℕ → ClientManager → ℕ
get_queued_size fd m = read_client (λ c. length c.outgoing_buffer) 0 (find fd m)

unfoldable pub consume_queued_data : ℕ → ℕ → ClientManager → ClientManager
consume_queued_data fd consumed m =
    adjust fd (λ c. record c { outgoing_buffer = consume consumed c.outgoing_buffer }) m

unfoldable pub set_context : ℕ → Bytes → Bytes → Bytes → ClientManager → ClientManager
unfolding set_client_context
set_context fd team_uuid channel_uuid thread_uuid m =
    adjust fd (set_client_context team_uuid channel_uuid thread_uuid) m

unfoldable pub get_context_team_uuid : ℕ → ClientManager → Bytes
unfolding read_uuid
get_context_team_uuid fd m = read_client (λ c. read_uuid c.ctx_team_uuid) [] (find fd m)

unfoldable pub get_context_channel_uuid : ℕ → ClientManager → Bytes
unfolding read_uuid
get_context_channel_uuid fd m = read_client (λ c. read_uuid c.ctx_channel_uuid) [] (find fd m)

unfoldable pub get_context_thread_uuid : ℕ → ClientManager → Bytes
unfolding read_uuid
get_context_thread_uuid fd m = read_client (λ c. read_uuid c.ctx_thread_uuid) [] (find fd m)
