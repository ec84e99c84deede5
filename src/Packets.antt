-- ===== src/Packets.antt =====
-- packet_handlers.c: what a socket does with a packet in each state of the connection, and the two
-- replies to the client of network_manager.c that the handlers send. The result is the packet to
-- answer with, `none` for NULL. Printing is left out.
pub mod Steps
pub mod Listen
pub mod Closing
pub mod Receive
pub mod Moves
pub mod Notify
pub mod Frame
pub mod Acked
pub mod Transitions
use network_layer_verificati.Prelude.{
  ℕ, zero, suc, ◌+◌, Bool, true, false, not, ◌&&◌, ◌||◌, Option, none, some, List, [], ◌∷◌,
  if◌then◌else◌, ℤ, pos, negsuc, ◌+ℤ◌, ◌-ℤ◌, eq_ℤ, leb_ℤ, ltb_ℤ, to_int, pos_part,
}
use network_layer_verificati.ByteQueue.{Queue, queue_size, queue_is_empty, dequeue}
use network_layer_verificati.SocketId.{SocketId}
use network_layer_verificati.TcpPacket.{TcpPacket, has_flag, ack_flag, fin_flag, rst_flag, syn_flag}
use network_layer_verificati.Heap.{TcpState, Sock, Heap, set_id}
use network_layer_verificati.Hashmap.{insert_socket}
use network_layer_verificati.Os.{Answers, Call, read_clock, read_time, read_rand, seed_rand, call}
use network_layer_verificati.Fifo.Io.{create_socket_end_fifos, unlink_socket_fifos}
use network_layer_verificati.World.{
  World, Run, ◌>>=◌, continue, pure, sys, deref, get_heap, put_heap, get_sock, put_sock,
}
use network_layer_verificati.Window.{receive_bytes}
use network_layer_verificati.Socket.{
  id_at, copy_socket_id, destroy_socket_id, destroy_socket, create_new_socket, construct_packet,
  update_recv_window,
}
use network_layer_verificati.Packets.Steps.{Reply, set_state, expect_after}
use network_layer_verificati.Packets.Listen.{handle_packet_listen}
use network_layer_verificati.Packets.Closing.{
  handle_packet_last_ack, handle_packet_fin_wait_1, handle_packet_fin_wait_2, handle_packet_closing,
}
use network_layer_verificati.Packets.Notify.{notify_connect_client, notify_accept_client}

-- What `dequeue` leaves of the send window of a socket, which is never NULL.
abbrev pub window_left : Option (ℕ × Option Queue) → Option Queue
window_left none = none
window_left (some (x, q)) = q

-- The loop that takes acknowledged bytes out of the send window: `n` is the size of the window,
-- which is how often it can run.
unfoldable pub take_acked : ℕ → ℤ → Sock → Sock
take_acked zero ack s = s
take_acked (suc n) ack s =
    let rest = take_acked n ack (record s {
      send_window = window_left (dequeue s.send_window);
      seq_of_first_send_window = to_int (s.seq_of_first_send_window +ℤ pos 1);
    }) in
    if ltb_ℤ s.seq_of_first_send_window ack && not (queue_is_empty s.send_window) then rest else s

abbrev pub is_listen : TcpState → Bool
is_listen TcpState.listen = true
is_listen _ = false

module _ (os : Answers) where
  unfoldable pub handle_packet_closed : ℕ → TcpPacket → Run Reply
  handle_packet_closed s p = pure none

  unfoldable pub handle_packet_syn_sent : ℕ → TcpPacket → Run Reply
  unfolding notify_connect_client
  handle_packet_syn_sent s p = do
    sock ← get_sock s
    if has_flag p.flags syn_flag
          && has_flag p.flags ack_flag
          && eq_ℤ p.ack_num sock.seq_of_first_send_window
        then (do
          result ← notify_connect_client os s
          if eq_ℤ result (pos 0)
              then (do _ ← expect_after s p; _ ← set_state s TcpState.establised; pure none)
              else pure none)
        else pure none

  unfoldable pub handle_packet_syn_received : ℕ → TcpPacket → Run Reply
  unfolding notify_accept_client
  handle_packet_syn_received s p = do
    sock ← get_sock s
    if has_flag p.flags ack_flag && eq_ℤ p.ack_num sock.seq_of_first_send_window
        then (do
          result ← notify_accept_client os s
          if eq_ℤ result (pos 0)
              then (do _ ← set_state s TcpState.establised; pure none)
              else pure none)
        else pure none

  unfoldable pub receive_new_data : ℕ → ℤ → List ℕ → Run Unit
  unfolding receive_bytes update_recv_window
  receive_new_data s seq text = do
    sock ← get_sock s
    _ ← put_sock s (receive_bytes sock seq 0 text)
    update_recv_window os s

  reply_to_data : ℕ → TcpPacket → Option (List ℕ) → Run Reply
  unfolding receive_new_data construct_packet
  reply_to_data s p none = pure none
  reply_to_data s p (some text) = do
    _ ← receive_new_data s p.seq_num text
    construct_packet os s [] ack_flag p.src_port

  unfoldable pub handle_packet_established : ℕ → TcpPacket → Run Reply
  unfolding take_acked reply_to_data queue_size
  handle_packet_established s p = do
    sock ← get_sock s
    if has_flag p.flags syn_flag
        then pure none
        else if has_flag p.flags fin_flag
        then (do
          _ ← put_sock s (record sock {
            state = TcpState.close_wait;
            seq_of_first_recv_window = to_int (p.seq_num +ℤ pos 1);
            seq_of_first_send_window =
                to_int (sock.seq_of_first_send_window +ℤ queue_size sock.send_window);
          })
          pure none)
        else (do
          _ ← put_sock s (
              if has_flag p.flags ack_flag
              then take_acked (pos_part (queue_size sock.send_window)) p.ack_num sock
              else sock)
          reply_to_data s p p.payload)

  unfoldable pub handle_packet_close_wait : ℕ → TcpPacket → Run Reply
  handle_packet_close_wait s p = pure none

  unfoldable pub handle_packet_time_wait : ℕ → TcpPacket → Run Reply
  handle_packet_time_wait s p = pure none

  -- the `switch` of `handle_packet`
  unfoldable pub in_state : TcpState → ℕ → TcpPacket → List ℕ → Run Reply
  unfolding handle_packet_closed handle_packet_listen handle_packet_syn_sent
      handle_packet_syn_received handle_packet_established handle_packet_close_wait
      handle_packet_last_ack handle_packet_fin_wait_1 handle_packet_fin_wait_2 handle_packet_closing
      handle_packet_time_wait
  in_state TcpState.closed s p src_ip = handle_packet_closed s p
  in_state TcpState.listen s p src_ip = handle_packet_listen os s p src_ip
  in_state TcpState.syn_sent s p src_ip = handle_packet_syn_sent s p
  in_state TcpState.syn_received s p src_ip = handle_packet_syn_received s p
  in_state TcpState.establised s p src_ip = handle_packet_established s p
  in_state TcpState.close_wait s p src_ip = handle_packet_close_wait s p
  in_state TcpState.last_ack s p src_ip = handle_packet_last_ack os s p
  in_state TcpState.fin_wait_1 s p src_ip = handle_packet_fin_wait_1 os s p
  in_state TcpState.fin_wait_2 s p src_ip = handle_packet_fin_wait_2 os s p
  in_state TcpState.closing s p src_ip = handle_packet_closing os s p
  in_state TcpState.time_wait s p src_ip = handle_packet_time_wait s p

  unfoldable pub handle_packet : ℕ → TcpPacket → List ℕ → Run Reply
  unfolding in_state
  handle_packet s p src_ip = do
    sock ← get_sock s
    if has_flag p.flags rst_flag && not (is_listen sock.state)
        then (do _ ← set_state s TcpState.closed; pure none)
        else if is_listen sock.state
        then in_state sock.state s p src_ip
        else (do
          i ← deref sock.id
          h ← get_heap
          if eq_ℤ p.src_port (h.ids i).dst_port then in_state sock.state s p src_ip else pure none)
