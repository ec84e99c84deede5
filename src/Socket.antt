-- ===== src/Socket.antt =====
-- socket_utils.c on the heap, `construct_packet` of tcp.c, and `hashDestroy` of Hashmap.c. A socket
-- is passed by its address.
pub mod Frame
pub mod Receive
pub mod Bound
use network_layer_verificati.Prelude.{
  ℕ, zero, suc, ◌+◌, ◌*◌, Bool, true, false, ◌&&◌, Option, none, some, is_some, List, [], ◌∷◌,
  if◌then◌else◌, replicate, length, ℤ, pos, negsuc, ◌+ℤ◌, eq_ℤ, ltb_ℤ, to_int,
}
use network_layer_verificati.ByteQueue.{queue_create}
use network_layer_verificati.SocketId.{SocketId, copy_of_id}
use network_layer_verificati.TcpPacket.{TcpPacket, calc_checksum}
use network_layer_verificati.Heap.{TcpState, Sock, SocketFds, Heap, set_id, set_sock}
use network_layer_verificati.Os.{
  Answers, Sys, Call, release_id, release_sock, read_clock, call, allocated,
}
use network_layer_verificati.Fifo.{failure, no_fd, get_socket_recv_fifo_name}
use network_layer_verificati.Fifo.Io.{
  write_string_to_fifo_name, create_socket_end_fifos, close_socket_fifos, unlink_socket_fifos,
}
use network_layer_verificati.World.{
  World, Run, ◌>>=◌, continue, pure, sys, deref, get_heap, put_heap, get_sock, put_sock,
}
use network_layer_verificati.Window.{max_window_size, valid_recvs, drop_received}

-- `DIFF2SEC(d) > seconds`, with a clock of 10^6 ticks in a second
abbrev pub longer_than : ℕ → ℤ → Bool
longer_than seconds d = ltb_ℤ (pos (seconds * 1000000)) d

abbrev pub socket_timeout : ℕ
socket_timeout = 10

abbrev pub no_fds : SocketFds
no_fds = record {
  listen_fifo_read_end = no_fd;
  listen_fifo_write_end = no_fd;
  accept_fifo_write_end = no_fd;
  out_fifo_read_end = no_fd;
  in_fifo_write_end = no_fd;
  end_fifo_read_end = no_fd;
  end_fifo_write_end = no_fd;
}

-- the identity at a pointer, where it is not NULL
abbrev pub id_at : Heap → Option ℕ → Option SocketId
id_at h none = none
id_at h (some i) = some (h.ids i)

module _ (os : Answers) where
  -- memory for an identity with these contents
  unfoldable pub new_id : SocketId → Run (Option ℕ)
  new_id i = do
    ok ← sys (allocated os)
    h ← get_heap
    if ok
        then (do
          _ ← put_heap (record (set_id h h.next_id i) { next_id = suc h.next_id })
          pure (some h.next_id))
        else pure none

  unfoldable pub copy_socket_id : ℕ → Run (Option ℕ)
  unfolding new_id
  copy_socket_id i = do h ← get_heap; new_id (copy_of_id (h.ids i))

  unfoldable pub destroy_socket_id : Option ℕ → Run Unit
  destroy_socket_id none = pure tt
  destroy_socket_id (some i) = do _ ← sys (call os (release_id i)); pure tt

  -- The windows are freed with the socket.
  unfoldable pub destroy_socket : ℕ → Run Unit
  unfolding destroy_socket_id
  destroy_socket s = do
    sock ← get_sock s
    _ ← destroy_socket_id sock.id
    _ ← sys (call os (release_sock s))
    pure tt

  unfoldable pub destroy_socket_fifos : ℕ → Run Unit
  unfolding close_socket_fifos unlink_socket_fifos
  destroy_socket_fifos s = do
    sock ← get_sock s
    _ ← sys (close_socket_fifos os sock.fds)
    h ← get_heap
    if is_some sock.id then sys (unlink_socket_fifos os (id_at h sock.id)) else pure tt

  -- The fields that the code sets; the others hold what the memory held.
  abbrev pub new_sock : Sock → Bool → ℤ → ℤ → Sock
  new_sock memory window clock₁ clock₂ = record memory {
    id = none;
    fds = no_fds;
    send_window = queue_create window;
    recv_window = replicate max_window_size 0;
    max_recv_window_size = max_window_size;
    recv_window_isvalid = replicate max_window_size false;
    seq_of_first_recv_window = pos 0;
    seq_of_first_send_window = pos 0;
    last_send_clock = clock₁;
    creation_time = clock₂;
  }

  -- `isvalid` is written before the test for NULL: without its memory there is no result.
  fill_socket : ℕ → Run (Option ℕ)
  unfolding destroy_socket
  fill_socket s = do
    send_window ← sys (allocated os)
    recv_window ← sys (allocated os)
    isvalid ← sys (allocated os)
    _ ← deref (if isvalid then some tt else none)
    clock₁ ← sys (call os read_clock)
    clock₂ ← sys (call os read_clock)
    h ← get_heap
    _ ← put_heap (record (set_sock h s (new_sock (h.socks s) send_window clock₁ clock₂)) {
      next_sock = suc h.next_sock;
    })
    if send_window && recv_window then pure (some s) else (do _ ← destroy_socket s; pure none)

  unfoldable pub create_new_socket : Run (Option ℕ)
  unfolding fill_socket
  create_new_socket = do
    ok ← sys (allocated os)
    h ← get_heap
    if ok then fill_socket h.next_sock else pure none

  -- the socket of `create_bound_socket`, once there is memory for it
  bind_to : ℕ → Option ℕ → Run (Option ℕ)
  unfolding create_socket_end_fifos destroy_socket
  bind_to i none = pure none
  bind_to i (some s) = do
    sock ← get_sock s
    _ ← put_sock s (record sock { state = TcpState.closed })
    h ← get_heap
    made ← sys (create_socket_end_fifos os (some (h.ids i)))
    if eq_ℤ made (pos 0)
        then (do sock ← get_sock s; _ ← put_sock s (record sock { id = some i }); pure (some s))
        else (do _ ← destroy_socket s; pure none)

  unfoldable pub create_bound_socket : ℕ → Run (Option ℕ)
  unfolding create_new_socket bind_to
  create_bound_socket i = do result ← create_new_socket; bind_to i result

  unfoldable pub packet_of : Sock → SocketId → List ℕ → ℕ → ℤ → TcpPacket
  unfolding calc_checksum
  packet_of s i text flags dst_port =
      let p : TcpPacket = record {
        src_port = i.src_port;
        dst_port = dst_port;
        seq_num = s.seq_of_first_send_window;
        ack_num = s.seq_of_first_recv_window;
        flags = flags;
        checksum = pos 0;
        payload = some text;
      } in
      record p { checksum = calc_checksum p }

  unfoldable pub construct_packet : ℕ → List ℕ → ℕ → ℤ → Run (Option TcpPacket)
  unfolding packet_of
  construct_packet s text flags dst_port = do
    packet_ok ← sys (allocated os)
    if packet_ok
        then (do
          text_ok ← sys (allocated os)
          if text_ok
              then (do
                sock ← get_sock s
                i ← deref sock.id
                h ← get_heap
                pure (some (packet_of sock (h.ids i) text flags dst_port)))
              else pure none)
        else pure none

  -- The end of `update_recv_window`: what `write` has answered. -1 is a failure, and nothing else
  -- is negative.
  advance_window : ℕ → ℤ → Run Unit
  unfolding drop_received
  advance_window s (pos written) = do sock ← get_sock s; put_sock s (drop_received written sock)
  advance_window s (negsuc n) = pure tt

  give_to_user : ℕ → Option (List ℕ) → Run Unit
  unfolding advance_window valid_recvs write_string_to_fifo_name
  give_to_user s none = pure tt
  give_to_user s (some name) = do
    sock ← get_sock s
    written ← sys (write_string_to_fifo_name os (some name) sock.recv_window (valid_recvs sock))
    advance_window s written

  unfoldable pub update_recv_window : ℕ → Run Unit
  unfolding give_to_user get_socket_recv_fifo_name
  update_recv_window s = do
    sock ← get_sock s
    h ← get_heap
    name ← sys (get_socket_recv_fifo_name os (id_at h sock.id))
    give_to_user s name
