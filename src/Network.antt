-- ===== src/Network.antt =====
-- server/network/ (Reciever and Sender), and the calls of common/utils/Socket.cpp and System.cpp below them. What the
-- system calls give is a parameter: of ::poll the events, of ::read the bytes, of ::write their number.
pub mod Flushing
use teams_mirror.Prelude.{
  ℕ, ◌==◌, Bool, true, false, not, ◌||◌, Option, none, some, [], if◌then◌else◌, is_empty,
}
use teams_mirror.Bytes.{Bytes}
use teams_mirror.Clients.{
  ClientManager, has_pending_write, get_queued_data, append_to_incoming_buffer, consume_queued_data,
}

-- The flags of a `short` of events.
pub record Events : Type 0 where
  pub pollin : Bool
  pub pollout : Bool
  pub pollerr : Bool
  pub pollhup : Bool
  pub pollnval : Bool

-- What a call comes to: a value, a SocketException (which Reciever and Sender turn into exceptions of their own),
-- or another exception (SocketClosed, SystemException).
pub data Tried {ℓ} (A : Type ℓ) : Type ℓ where
  returned : A → Tried A
  failed : Tried A
  escaped : Tried A

-- System::read and System::write; nothing where the system call gave -1.
unfoldable pub system_call {ℓ} : {A : Type ℓ} → Option A → Tried A
system_call none = escaped
system_call (some x) = returned x

-- An empty string is the end of the connection.
unfoldable pub closed_if_empty : Tried Bytes → Tried Bytes
closed_if_empty (returned s) = if is_empty s then escaped else returned s
closed_if_empty failed = failed
closed_if_empty escaped = escaped

-- Socket::read; nothing for the events where ::poll gave -1.
unfoldable pub socket_read : Option Events → Option Bytes → Tried Bytes
unfolding system_call closed_if_empty
socket_read none got = failed
socket_read (some e) got =
    if e.pollerr || e.pollhup
    then (if e.pollin then closed_if_empty (system_call got) else escaped)
    else if e.pollin
    then system_call got
    else returned []

-- Socket::write
unfoldable pub socket_write : Option Events → Option ℕ → Tried ℕ
unfolding system_call
socket_write none got = failed
socket_write (some e) got =
    if e.pollerr || e.pollhup then escaped else if e.pollout then system_call got else returned 0

-- What the system gives while a client is served: whether the descriptor can be made a Socket, the events of its poll,
-- and the result of the call.
pub record Calls {ℓ} (A : Type ℓ) : Type ℓ where
  pub is_socket : Bool
  pub polled : Option Events
  pub result : Option A

-- Reciever::recvBytes
unfoldable pub recv_bytes : Calls Bytes → Tried Bytes
unfolding socket_read
recv_bytes calls = if calls.is_socket then socket_read calls.polled calls.result else failed

-- What is done with the bytes that were received.
unfoldable pub take_received : ℕ → ClientManager → Tried Bytes → Tried (Bool × ClientManager)
take_received fd m (returned data_read) =
    if is_empty data_read
    then returned (false, m)
    else returned (true, append_to_incoming_buffer fd data_read m)
take_received fd m failed = failed
take_received fd m escaped = escaped

-- Reciever::readClientData
unfoldable pub read_client_data : Calls Bytes → ℕ → ClientManager → Tried (Bool × ClientManager)
unfolding recv_bytes take_received
read_client_data calls fd m = take_received fd m (recv_bytes calls)

-- Sender::sendBytes
unfoldable pub send_bytes : Calls ℕ → Tried ℕ
unfolding socket_write
send_bytes calls = if calls.is_socket then socket_write calls.polled calls.result else failed

-- What is done about the number of bytes that were sent.
unfoldable pub drop_sent : ℕ → ClientManager → Tried ℕ → Tried (Bool × ClientManager)
drop_sent fd m (returned sent) =
    if sent == 0 then returned (false, m) else returned (true, consume_queued_data fd sent m)
drop_sent fd m failed = failed
drop_sent fd m escaped = escaped

-- Sender::flushClientData
unfoldable pub flush_client_data : Calls ℕ → ℕ → ClientManager → Tried (Bool × ClientManager)
unfolding send_bytes drop_sent
flush_client_data calls fd m =
    if not (has_pending_write fd m) || is_empty (get_queued_data fd m)
    then returned (true, m)
    else drop_sent fd m (send_bytes calls)
