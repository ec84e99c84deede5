-- ===== src/Manager/Send.antt =====
-- `get_next_socket_packet_data` and `check_and_handle_send_window` of
-- network_manager/network_manager.c: the data that a connection sends, again and again until they
-- are acknowledged.
pub mod Data
use network_layer_verificati.Prelude.{
  ℕ, zero, suc, Bool, true, false, Option, none, some, is_some, List, [], ◌∷◌, if◌then◌else◌, ◌==◌,
  ◌&&◌, ℤ, pos, eq_ℤ, ◌-ℤ◌,
}
use network_layer_verificati.ByteQueue.{Queue, queue_empty_element, queue_get_first, queue_get_next}
use network_layer_verificati.TcpPacket.{TcpPacket, ack_flag}
use network_layer_verificati.Heap.{TcpState}
use network_layer_verificati.Os.{Answers, read_clock, call, allocated}
use network_layer_verificati.World.{
  World, Run, ◌>>=◌, continue, pure, sys, undefined, get_heap, get_sock, put_sock, unless_null,
}
use network_layer_verificati.Socket.{longer_than, construct_packet}
use network_layer_verificati.Manager.{find_socket, send_tcp_packet}

abbrev pub max_data_per_packet : ℕ
max_data_per_packet = 128

-- `SOCKET_SEND_AGAIN_TIME`
abbrev pub socket_send_again_time : ℕ
socket_send_again_time = 3

abbrev pub is_established : TcpState → Bool
is_established TcpState.establised = true
is_established _ = false

-- The loop over the queue, with room for so many bytes: it is left when the room is full.
unfoldable pub packet_bytes : ℕ → ℕ → Option Queue → List ℕ × Option Queue
packet_bytes zero item q = ([], q)
packet_bytes (suc zero) item q = if item == queue_empty_element then ([], q) else (item ∷ [], q)
packet_bytes (suc (suc room)) item q =
    let (next, q') = queue_get_next q in
    let (rest, q'') = packet_bytes (suc room) next q' in
    if item == queue_empty_element then ([], q) else (item ∷ rest, q'')

unfoldable pub packet_data : Option Queue → List ℕ × Option Queue
unfolding packet_bytes queue_get_first
packet_data q = let (item, q') = queue_get_first q in packet_bytes max_data_per_packet item q'

module _ (os : Answers) where
  -- the clock of the last packet, where this one has been sent
  unfoldable pub sent_at : ℕ → ℤ → Run Unit
  sent_at s sent =
      if eq_ℤ sent (pos 0)
      then (do
        now ← sys (call os read_clock)
        sock ← get_sock s
        put_sock s (record sock { last_send_clock = now }))
      else pure tt

  unfoldable pub get_next_socket_packet_data : ℕ → Run (Option (List ℕ))
  unfolding packet_data
  get_next_socket_packet_data s = do
    sock ← get_sock s
    unless_null sock.send_window none (λ q. do
      ok ← sys (allocated os)
      if ok
          then (do
            let read : List ℕ × Option Queue = packet_data (some q)
            _ ← put_sock s (record sock { send_window = read.1 })
            pure (some read.0))
          else pure none)

  -- the data, and whether they are the string constant "", which the code frees as well
  data_or_constant : Option (List ℕ) → List ℕ × Bool
  data_or_constant none = ([], true)
  data_or_constant (some s) = (s, false)

  send_data : ℕ → ℕ → Option TcpPacket → Run ℤ
  unfolding send_tcp_packet sent_at
  send_data i s ack_packet = unless_null ack_packet (pos 0) (λ p. do
    sock ← get_sock s
    h ← get_heap
    sent ←
        send_tcp_packet os
          (some (record p {
            seq_num = sock.seq_of_first_send_window;
            ack_num = sock.seq_of_first_recv_window;
          }))
          ((h.ids i).dst_ip)
    _ ← sent_at s sent
    pure (pos 0))

  unfoldable pub resend : ℕ → ℕ → Run ℤ
  unfolding get_next_socket_packet_data data_or_constant construct_packet send_data
  resend i s = do
    est_socket_data ← get_next_socket_packet_data s
    let (text, is_constant) = data_or_constant est_socket_data
    h ← get_heap
    ack_packet ← construct_packet os s text ack_flag ((h.ids i).dst_port)
    if is_constant then undefined else send_data i s ack_packet

  unfoldable pub check_and_handle_send_window : ℕ → Run ℤ
  unfolding resend
  check_and_handle_send_window i = do
    found ← find_socket i
    unless_null found (pos 0) (λ s. do
      sock ← get_sock s
      if is_established sock.state
          then (do
            now ← sys (call os read_clock)
            if longer_than socket_send_again_time (now -ℤ sock.last_send_clock)
                then resend i s
                else pure (pos 0))
          else pure (pos 0))
