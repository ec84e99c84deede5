-- ===== src/Manager/Remove.antt =====
-- `unlink_socket_fifos_server_side` and `remove_and_destroy_socket` of
-- network_manager/network_manager.c: how a manager gives a socket up.
pub mod Frame
use network_layer_verificati.Prelude.{
  ℕ, Bool, Option, none, some, List, [], ◌∷◌, if◌then◌else◌, pos, eq_ℤ,
}
use network_layer_verificati.Heap.{set_id}
use network_layer_verificati.Hashmap.{hashmap_remove}
use network_layer_verificati.Os.{Answers, OpenMode, write_file, close_file, call}
use network_layer_verificati.Fifo.{
  Name, no_fd, get_end_fifo_write_end_name, get_accept_fifo_write_end_name,
  get_socket_send_fifo_name, get_socket_recv_fifo_name,
}
use network_layer_verificati.Fifo.Io.{opened, unlink_name}
use network_layer_verificati.World.{
  World, Run, ◌>>=◌, continue, pure, sys, deref, get_heap, put_heap, get_sock, unless_null,
}
use network_layer_verificati.Socket.{id_at, copy_socket_id, destroy_socket_id, destroy_socket}
use network_layer_verificati.Manager.{find_socket}

-- `CONN_CLOSED`
abbrev pub conn_closed : ℕ
conn_closed = 1

-- the identity `i` as the peer of the connection has it: `id` is the copy, which is changed
unfoldable pub turn_around : ℕ → ℕ → Run Unit
turn_around partner_id i = do
  h ← get_heap
  put_heap (
      set_id h partner_id (record (h.ids partner_id) {
        src_ip = (h.ids i).dst_ip;
        src_port = (h.ids i).dst_port;
        dst_ip = (h.ids i).src_ip;
        dst_port = (h.ids i).src_port;
      }))

-- `hashmapRemove(manager->sockets, id)`
unfoldable pub leave_map : ℕ → Run Bool
leave_map i w =
    let (removed, m) = hashmap_remove w.heap w.sockets (some i) in
    some (removed, record w { sockets = m })

module _ (os : Answers) where
  unfoldable pub write_closed : Name → Run Unit
  write_closed none = pure tt
  write_closed (some name) = do
    recv_fifo_fd ← sys (opened os name OpenMode.read_write)
    if eq_ℤ recv_fifo_fd no_fd then pure tt else (do
      _ ← sys (call os (write_file recv_fifo_fd (conn_closed ∷ [])))
      _ ← sys (call os (close_file recv_fifo_fd))
      pure tt)

  unfoldable pub tell_partner : ℕ → Name → Run Unit
  unfolding write_closed destroy_socket_id
  tell_partner partner_id name = do _ ← write_closed name; destroy_socket_id os (some partner_id)

  -- The partner, which may wait in `recv`, is told.
  unfoldable pub disconnect_partner : ℕ → Option ℕ → Run Unit
  unfolding turn_around tell_partner get_socket_recv_fifo_name
  disconnect_partner i none = pure tt
  disconnect_partner i (some partner_id) = do
    _ ← turn_around partner_id i
    h ← get_heap
    name ← sys (get_socket_recv_fifo_name os (some (h.ids partner_id)))
    tell_partner partner_id name

  unfoldable pub unlink_socket_fifos_server_side : ℕ → Run Unit
  unfolding unlink_name disconnect_partner copy_socket_id get_end_fifo_write_end_name
      get_accept_fifo_write_end_name get_socket_send_fifo_name get_socket_recv_fifo_name
  unlink_socket_fifos_server_side s = do
    sock ← get_sock s
    h ← get_heap
    end_fifo_write_name ← sys (get_end_fifo_write_end_name os (id_at h sock.id))
    _ ← sys (unlink_name os end_fifo_write_name)
    accept_fifo_name ← sys (get_accept_fifo_write_end_name os (id_at h sock.id))
    _ ← sys (unlink_name os accept_fifo_name)
    send_fifo_name ← sys (get_socket_send_fifo_name os (id_at h sock.id))
    _ ← sys (unlink_name os send_fifo_name)
    recv_fifo_name ← sys (get_socket_recv_fifo_name os (id_at h sock.id))
    _ ← sys (unlink_name os recv_fifo_name)
    if eq_ℤ sock.seq_of_first_send_window (pos 0) then pure tt else (do
      i ← deref sock.id
      partner_id ← copy_socket_id os i
      disconnect_partner i partner_id)

  unfoldable pub remove_and_destroy_socket : ℕ → Run Unit
  unfolding leave_map unlink_socket_fifos_server_side destroy_socket
  remove_and_destroy_socket i = do
    to_remove ← find_socket i
    unless_null to_remove tt
        (λ s. do _ ← leave_map i; _ ← unlink_socket_fifos_server_side s; destroy_socket os s)
