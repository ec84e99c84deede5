-- ===== src/Manager/UserData.antt =====
-- The data that a client hands over: the part of `check_and_handle_outgoing_status_messages` of
-- network_manager/network_manager.c for a connection that is established.
pub mod Keeps
pub mod Stream
use network_layer_verificati.Prelude.{
  ℕ, zero, suc, Bool, true, false, Option, none, some, List, [], ◌∷◌, if◌then◌else◌, ℤ, pos, negsuc,
  ◌+◌, ◌+ℤ◌, ◌-ℤ◌, eq_ℤ, leb_ℤ, to_int,
}
use network_layer_verificati.ByteQueue.{Queue, enqueue, queue_size, queue_capacity}
use network_layer_verificati.TcpPacket.{TcpPacket, ack_flag, fin_flag, rst_flag, syn_flag}
use network_layer_verificati.Heap.{TcpState, Sock}
use network_layer_verificati.Os.{Answers, OpenMode, close_file, read_clock, call}
use network_layer_verificati.Fifo.{Name, failure, no_fd, get_socket_send_fifo_name}
use network_layer_verificati.Fifo.Io.{opened}
use network_layer_verificati.Fifo.Read.{read_byte}
use network_layer_verificati.World.{
  World, Run, ◌>>=◌, continue, pure, sys, waits, get_heap, get_sock, put_sock, unless_null,
}
use network_layer_verificati.Socket.{longer_than, id_at, construct_packet}
use network_layer_verificati.Packets.Steps.{Reply, set_state}
use network_layer_verificati.Manager.{find_socket, send_tcp_packet}
use network_layer_verificati.Manager.Send.{max_data_per_packet, socket_send_again_time, sent_at}

module _ (os : Answers) where
  unfoldable pub enqueue_byte : ℕ → ℕ → Run Unit
  unfolding enqueue
  enqueue_byte s c = do
    sock ← get_sock s
    put_sock s (record sock { send_window = (enqueue sock.send_window c).1 })

  unfoldable pub window_is_full : ℕ → Run Bool
  unfolding queue_size queue_capacity
  window_is_full s = do
    sock ← get_sock s
    pure (leb_ℤ (queue_capacity sock.send_window) (queue_size sock.send_window))

  -- What is done with a byte that has been read, if it has. The descriptor is closed after each,
  -- and then come the other rounds.
  unfoldable pub take_byte : Run Unit → ℕ → ℤ → ℤ × ℕ → Run Unit
  unfolding enqueue_byte
  take_byte rest s fd (read_length, c) =
      if eq_ℤ read_length (pos 1)
      then (do _ ← enqueue_byte s c; _ ← sys (call os (close_file fd)); rest)
      else pure tt

  unfoldable pub take_unless_full : Run Unit → ℕ → ℤ → Bool → Run Unit
  unfolding read_byte take_byte
  take_unless_full rest s fd true = pure tt
  take_unless_full rest s fd false = do read ← waits (read_byte os fd); take_byte rest s fd read

  unfoldable pub take_bytes : ℕ → ℕ → ℤ → Run Unit
  unfolding take_unless_full window_is_full
  take_bytes zero s fd = pure tt
  take_bytes (suc room) s fd = do
    full ← window_is_full s
    take_unless_full (take_bytes room s fd) s fd full

  unfoldable pub take_opened : ℕ → ℤ → Run ℤ
  unfolding take_bytes
  take_opened s fd = if eq_ℤ fd no_fd then pure (pos 0) else (do
    _ ← take_bytes max_data_per_packet s fd
    _ ← sys (call os (close_file fd))
    pure (pos 0))

  unfoldable pub take_from : ℕ → Name → Run ℤ
  unfolding take_opened
  take_from s none = pure (pos 0)
  take_from s (some name) = do
    fd ← sys (opened os name OpenMode.read_only_nonblock)
    take_opened s fd

  take_queue : ℕ → Option Queue → Run ℤ
  unfolding take_from get_socket_send_fifo_name
  take_queue s none = pure (pos 0)
  take_queue s (some q) = do
    sock ← get_sock s
    h ← get_heap
    socket_send_fifo_name ← sys (get_socket_send_fifo_name os (id_at h sock.id))
    take_from s socket_send_fifo_name

  unfoldable pub take_user_data : ℕ → Run ℤ
  unfolding take_queue
  take_user_data s = do sock ← get_sock s; take_queue s sock.send_window
