-- ===== src/Packets/Closing.antt =====
-- packet_handlers.c: the handlers of a connection that is being closed.
use network_layer_verificati.Prelude.{ℕ, Bool, not, ◌&&◌, none, [], if◌then◌else◌, leb_ℤ, ltb_ℤ}
use network_layer_verificati.TcpPacket.{TcpPacket, has_flag, ack_flag, fin_flag}
use network_layer_verificati.Heap.{TcpState, Sock}
use network_layer_verificati.Os.{Answers, read_clock, call}
use network_layer_verificati.World.{Run, ◌>>=◌, pure, sys, get_sock, put_sock}
use network_layer_verificati.Socket.{construct_packet}
use network_layer_verificati.Packets.Steps.{Reply, set_state, expect_after}

module _ (os : Answers) where
  unfoldable pub handle_packet_last_ack : ℕ → TcpPacket → Run Reply
  handle_packet_last_ack s p = do
    sock ← get_sock s
    if has_flag p.flags ack_flag && not (leb_ℤ p.ack_num sock.seq_of_first_send_window)
        then (do _ ← set_state s TcpState.closed; pure none)
        else pure none

  -- the acknowledgement is for the FIN that this socket has sent
  unfoldable pub acks_fin : Sock → TcpPacket → Bool
  acks_fin sock p = has_flag p.flags ack_flag && ltb_ℤ sock.seq_of_first_send_window p.ack_num

  unfoldable pub handle_packet_fin_wait_1 : ℕ → TcpPacket → Run Reply
  unfolding acks_fin
  handle_packet_fin_wait_1 s p = do
    sock ← get_sock s
    let received_ack = acks_fin sock p
    _ ← if received_ack then set_state s TcpState.fin_wait_2 else pure tt
    if has_flag p.flags fin_flag
        then (do
          _ ← expect_after s p
          _ ← set_state s TcpState.closing
          now ← sys (call os read_clock)
          sock ← get_sock s
          _ ← put_sock s (record sock { time_since_fin_sent = now })
          if received_ack
              then (do
                now ← sys (call os read_clock)
                sock ← get_sock s
                _ ← put_sock s (record sock { last_send_clock = now; state = TcpState.time_wait })
                pure none)
              else pure none)
        else pure none

  unfoldable pub handle_packet_fin_wait_2 : ℕ → TcpPacket → Run Reply
  unfolding construct_packet
  handle_packet_fin_wait_2 s p =
      if has_flag p.flags fin_flag
      then (do
        _ ← set_state s TcpState.time_wait
        _ ← expect_after s p
        construct_packet os s [] ack_flag p.src_port)
      else pure none

  unfoldable pub handle_packet_closing : ℕ → TcpPacket → Run Reply
  unfolding acks_fin
  handle_packet_closing s p = do
    sock ← get_sock s
    if acks_fin sock p
        then (do
          now ← sys (call os read_clock)
          sock ← get_sock s
          _ ← put_sock s (record sock { last_send_clock = now; state = TcpState.time_wait })
          pure none)
        else pure none
