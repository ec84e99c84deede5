-- ===== src/Packets/Listen.antt =====
-- packet_handlers.c: a listening socket, and the socket of a new connection.
use network_layer_verificati.Prelude.{
  ℕ, Bool, Option, none, some, List, [], if◌then◌else◌, ℤ, pos, ◌+ℤ◌, ◌-ℤ◌, eq_ℤ, to_int,
}
use network_layer_verificati.TcpPacket.{TcpPacket, has_flag, rst_flag, syn_flag}
use network_layer_verificati.Heap.{TcpState, set_id}
use network_layer_verificati.Hashmap.{insert_socket}
use network_layer_verificati.Os.{Answers, read_time, read_rand, seed_rand, call}
use network_layer_verificati.Fifo.Io.{create_socket_end_fifos, unlink_socket_fifos}
use network_layer_verificati.World.{
  Run, ◌>>=◌, pure, sys, deref, get_heap, put_heap, get_sock, put_sock,
}
use network_layer_verificati.Socket.{
  id_at, copy_socket_id, destroy_socket_id, destroy_socket, create_new_socket, construct_packet,
}
use network_layer_verificati.Packets.Steps.{Reply}

-- `insertSocket(manager->sockets, socket)`
unfoldable pub enter_map : ℕ → Run Bool
enter_map s w =
    let (inserted, m) = insert_socket w.heap w.sockets (some s) in
    some (inserted, record w { sockets = m })

module _ (os : Answers) where
  unfoldable pub generate_rst_packet : ℕ → ℤ → Run Reply
  unfolding construct_packet
  generate_rst_packet s dst_port = construct_packet os s [] rst_flag dst_port

  -- the end of `handle_packet_listen`: the socket of the new connection goes into the map
  enter_connection : ℕ → ℕ → TcpPacket → ℕ → Run Reply
  unfolding unlink_socket_fifos destroy_socket enter_map
  enter_connection s i p new_conn = do
    now ← sys (call os read_time)
    _ ← sys (call os (seed_rand now))
    my_seq ← sys (call os read_rand)
    sock ← get_sock new_conn
    _ ← put_sock new_conn (record sock {
      id = some i;
      seq_of_first_send_window = my_seq;
      state = TcpState.syn_received;
      seq_of_first_recv_window = to_int (p.seq_num +ℤ pos 1);
    })
    inserted ← enter_map new_conn
    if inserted
        then (do
          listener ← get_sock s
          _ ←
              put_sock s
                (record listener { max_connections = to_int (listener.max_connections -ℤ pos 1) })
          pure none)
        else (do
          sock ← get_sock new_conn
          h ← get_heap
          _ ← sys (unlink_socket_fifos os (id_at h sock.id))
          _ ← destroy_socket os new_conn
          pure none)

  open_connection : ℕ → ℕ → TcpPacket → Option ℕ → Run Reply
  unfolding enter_connection create_socket_end_fifos destroy_socket destroy_socket_id
  open_connection s i p none = do _ ← destroy_socket_id os (some i); pure none
  open_connection s i p (some new_conn) = do
    h ← get_heap
    made ← sys (create_socket_end_fifos os (some (h.ids i)))
    if eq_ℤ made (pos 0)
        then enter_connection s i p new_conn
        else (do _ ← destroy_socket os new_conn; _ ← destroy_socket_id os (some i); pure none)

  connect_to : ℕ → TcpPacket → List ℕ → Option ℕ → Run Reply
  unfolding create_new_socket open_connection
  connect_to s p src_ip none = pure none
  connect_to s p src_ip (some i) = do
    h ← get_heap
    _ ← put_heap (set_id h i (record (h.ids i) { dst_ip = src_ip; dst_port = p.src_port }))
    new_conn ← create_new_socket os
    open_connection s i p new_conn

  unfoldable pub handle_packet_listen : ℕ → TcpPacket → List ℕ → Run Reply
  unfolding generate_rst_packet copy_socket_id connect_to
  handle_packet_listen s p src_ip =
      if has_flag p.flags syn_flag
      then (do
        sock ← get_sock s
        if eq_ℤ sock.max_connections (pos 0) then generate_rst_packet s p.src_port else (do
          i ← deref sock.id
          new_conn_id ← copy_socket_id os i
          connect_to s p src_ip new_conn_id))
      else pure none
