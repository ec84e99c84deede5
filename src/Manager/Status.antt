-- ===== src/Manager/Status.antt =====
-- `check_and_handle_outgoing_status_messages` of network_manager/network_manager.c: what a socket
-- does in each state in every round of its manager, and the data that its client hands over.
pub mod Built
pub mod Keeps
pub mod Moves
use network_layer_verificati.Prelude.{
  ℕ, zero, suc, Bool, true, false, Option, none, some, List, [], ◌∷◌, if◌then◌else◌, ℤ, pos, negsuc,
  ◌+◌, ◌+ℤ◌, ◌-ℤ◌, eq_ℤ, leb_ℤ, to_int,
}
use network_layer_verificati.ByteQueue.{enqueue, queue_size, queue_capacity}
use network_layer_verificati.TcpPacket.{TcpPacket, ack_flag, fin_flag, rst_flag, syn_flag}
use network_layer_verificati.Heap.{TcpState, Sock}
use network_layer_verificati.Os.{Answers, OpenMode, close_file, read_clock, call}
use network_layer_verificati.Fifo.{Name, failure, no_fd, get_socket_send_fifo_name}
use network_layer_verificati.Fifo.Io.{opened}
use network_layer_verificati.Fifo.Read.{read_byte}
use network_layer_verificati.World.{
  World, Run, ◌>>=◌, continue, pure, sys, waits, get_heap, get_sock, put_sock, unless_null,
}
use network_layer_verificati.Socket.{longer_than, id_at, construct_packet}
use network_layer_verificati.Packets.Steps.{Reply, set_state}
use network_layer_verificati.Manager.{find_socket, send_tcp_packet}
use network_layer_verificati.Manager.UserData.{take_user_data}
use network_layer_verificati.Manager.Send.{max_data_per_packet, socket_send_again_time, sent_at}

-- `SOCKET_FIN_RST_TIME` and `SOCKET_TIME_WAIT_TIMEOUT`
abbrev pub socket_fin_rst_time : ℕ
socket_fin_rst_time = 8

abbrev pub socket_time_wait_timeout : ℕ
socket_time_wait_timeout = 1

abbrev pub syn_ack_flags : ℕ
syn_ack_flags = syn_flag + ack_flag

abbrev pub fin_ack_flags : ℕ
fin_ack_flags = fin_flag + ack_flag

-- `sock->seq_of_first_send_window` and what is added to it
abbrev pub move_seq : ℕ → ℤ → Run Unit
move_seq s d w =
    put_sock s
      (record (w.heap.socks s) {
        seq_of_first_send_window = to_int ((w.heap.socks s).seq_of_first_send_window +ℤ d);
      })
      w

module _ (os : Answers) where
  -- a packet with no data, sent to the peer
  unfoldable pub send_built : ℕ → ℕ → Reply → Run ℤ
  unfolding send_tcp_packet sent_at
  send_built i s none = pure (pos 0)
  send_built i s (some p) = do
    h ← get_heap
    sent ← send_tcp_packet os (some p) ((h.ids i).dst_ip)
    _ ← sent_at os s sent
    pure (pos 0)

  unfoldable pub build : ℕ → ℕ → ℕ → Run Reply
  unfolding construct_packet
  build i s flags = do h ← get_heap; construct_packet os s [] flags ((h.ids i).dst_port)

  unfoldable pub since_last_send : ℕ → ℕ → Run Bool
  since_last_send seconds s = do
    now ← sys (call os read_clock)
    sock ← get_sock s
    pure (longer_than seconds (now -ℤ sock.last_send_clock))

  unfoldable pub since_fin_sent : ℕ → Run Bool
  since_fin_sent s = do
    now ← sys (call os read_clock)
    sock ← get_sock s
    pure (longer_than socket_fin_rst_time (now -ℤ sock.time_since_fin_sent))

  unfoldable pub send_syn_packet : ℕ → ℕ → Reply → Run ℤ
  unfolding send_built
  send_syn_packet i s packet = do _ ← move_seq s (pos 1); send_built i s packet

  -- The number of the SYN is the one before the first byte.
  unfoldable pub send_syn_if : ℕ → ℕ → Bool → Run ℤ
  unfolding build send_syn_packet
  send_syn_if i s false = pure (pos 0)
  send_syn_if i s true = do
    _ ← move_seq s (negsuc 0)
    syn_packet ← build i s syn_flag
    send_syn_packet i s syn_packet

  unfoldable pub send_syn : ℕ → ℕ → Run ℤ
  unfolding since_last_send send_syn_if
  send_syn i s = do again ← since_last_send socket_send_again_time s; send_syn_if i s again

  numbered : Sock → TcpPacket → TcpPacket
  numbered sock p = record p {
    seq_num = to_int (sock.seq_of_first_send_window -ℤ pos 1);
    ack_num = sock.seq_of_first_recv_window;
  }

  unfoldable pub send_numbered : ℕ → ℕ → Reply → Run ℤ
  unfolding send_built numbered
  send_numbered i s none = pure (pos 0)
  send_numbered i s (some p) = do sock ← get_sock s; send_built i s (some (numbered sock p))

  unfoldable pub send_syn_ack_packet : ℕ → ℕ → Reply → Run ℤ
  unfolding send_numbered
  send_syn_ack_packet i s packet = do _ ← move_seq s (pos 1); send_numbered i s packet

  unfoldable pub send_syn_ack_if : ℕ → ℕ → Bool → Run ℤ
  unfolding build send_syn_ack_packet
  send_syn_ack_if i s false = pure (pos 0)
  send_syn_ack_if i s true = do
    _ ← move_seq s (negsuc 0)
    syn_ack_packet ← build i s syn_ack_flags
    send_syn_ack_packet i s syn_ack_packet

  unfoldable pub send_syn_ack : ℕ → ℕ → Run ℤ
  unfolding since_last_send send_syn_ack_if
  send_syn_ack i s = do again ← since_last_send socket_send_again_time s; send_syn_ack_if i s again

  unfoldable pub send_fin_if : ℕ → ℕ → ℕ → Bool → Run ℤ
  unfolding build send_built
  send_fin_if i s flags false = pure (pos 0)
  send_fin_if i s flags true = do fin_packet ← build i s flags; send_built i s fin_packet

  unfoldable pub send_fin : ℕ → ℕ → ℕ → Run ℤ
  unfolding since_last_send send_fin_if
  send_fin i s flags = do
    again ← since_last_send socket_send_again_time s
    send_fin_if i s flags again

  unfoldable pub send_rst_packet : ℕ → Reply → Run ℤ
  unfolding send_tcp_packet
  send_rst_packet i none = pure failure
  send_rst_packet i (some p) = do h ← get_heap; send_tcp_packet os (some p) ((h.ids i).dst_ip)

  -- What sending a reset gives: -1 where there is no memory for the packet.
  unfoldable pub send_rst : ℕ → ℕ → Run ℤ
  unfolding build send_rst_packet
  send_rst i s = do rst_packet ← build i s rst_flag; send_rst_packet i rst_packet

  unfoldable pub wait_after_rst : ℕ → ℕ → ℤ → Run ℤ
  unfolding send_fin
  wait_after_rst i s sent =
      if eq_ℤ sent failure
      then send_fin i s fin_flag
      else (do _ ← set_state s TcpState.time_wait; pure (pos 0))

  unfoldable pub end_fin_wait_1_if : ℕ → ℕ → Bool → Run ℤ
  unfolding send_rst send_fin wait_after_rst
  end_fin_wait_1_if i s false = send_fin i s fin_flag
  end_fin_wait_1_if i s true = do sent ← send_rst i s; wait_after_rst i s sent

  -- A reset after eight seconds, which also ends the wait if no manager has the address.
  unfoldable pub end_fin_wait_1 : ℕ → ℕ → Run ℤ
  unfolding since_fin_sent end_fin_wait_1_if
  end_fin_wait_1 i s = do late ← since_fin_sent s; end_fin_wait_1_if i s late

  unfoldable pub close_after_rst : ℕ → ℤ → Run ℤ
  close_after_rst s sent =
      if eq_ℤ sent (pos 0)
      then (do _ ← set_state s TcpState.time_wait; pure (pos 0))
      else pure (pos 0)

  unfoldable pub end_closing_if : ℕ → ℕ → Bool → Run ℤ
  unfolding send_rst close_after_rst
  end_closing_if i s false = pure (pos 0)
  end_closing_if i s true = do sent ← send_rst i s; close_after_rst s sent

  unfoldable pub end_closing : ℕ → ℕ → Run ℤ
  unfolding since_fin_sent end_closing_if
  end_closing i s = do late ← since_fin_sent s; end_closing_if i s late

  unfoldable pub end_close_wait : ℕ → Run ℤ
  unfolding queue_size
  end_close_wait s = do
    sock ← get_sock s
    _ ← move_seq s (queue_size sock.send_window)
    _ ← set_state s TcpState.last_ack
    pure (pos 0)

  unfoldable pub end_time_wait_if : ℕ → Bool → Run ℤ
  end_time_wait_if s false = pure (pos 0)
  end_time_wait_if s true = do _ ← set_state s TcpState.closed; pure (pos 0)

  unfoldable pub end_time_wait : ℕ → Run ℤ
  unfolding since_last_send end_time_wait_if
  end_time_wait s = do late ← since_last_send socket_time_wait_timeout s; end_time_wait_if s late

  -- the chain of tests on the state
  unfoldable pub status_message : TcpState → ℕ → ℕ → Run ℤ
  unfolding send_syn send_syn_ack take_user_data end_fin_wait_1 end_close_wait end_closing send_fin
      end_time_wait
  status_message TcpState.syn_sent i s = send_syn i s
  status_message TcpState.syn_received i s = send_syn_ack i s
  status_message TcpState.establised i s = take_user_data os s
  status_message TcpState.fin_wait_1 i s = end_fin_wait_1 i s
  status_message TcpState.close_wait i s = end_close_wait s
  status_message TcpState.closing i s = end_closing i s
  status_message TcpState.last_ack i s = send_fin i s fin_ack_flags
  status_message TcpState.time_wait i s = end_time_wait s
  status_message _ i s = pure (pos 0)

  unfoldable pub check_and_handle_outgoing_status_messages : ℕ → Run ℤ
  unfolding status_message
  check_and_handle_outgoing_status_messages i = do
    found ← find_socket i
    unless_null found (pos 0) (λ s. do sock ← get_sock s; status_message sock.state i s)
