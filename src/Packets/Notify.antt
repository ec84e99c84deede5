-- ===== src/Packets/Notify.antt =====
-- network_manager.c: what the manager tells a client whose connection has been made.
use network_layer_verificati.Prelude.{
  ℕ, suc, Option, none, some, List, [], ◌∷◌, ◌++◌, if◌then◌else◌, length, ℤ, pos, eq_ℤ,
}
use network_layer_verificati.SocketId.{empty_ip, empty_port}
use network_layer_verificati.Heap.{set_id}
use network_layer_verificati.Os.{Answers, release_id, close_file, write_file, OpenMode, call}
use network_layer_verificati.Fifo.{
  Name, failure, no_fd, peer_repr, get_connect_fifo_read_end_name, get_accept_fifo_write_end_name,
}
use network_layer_verificati.Fifo.Io.{opened, write_char_to_fifo_name, create_socket_end_fifos}
use network_layer_verificati.World.{Run, ◌>>=◌, pure, sys, deref, get_heap, put_heap, get_sock}
use network_layer_verificati.Socket.{copy_socket_id}

module _ (os : Answers) where
  -- the identity of the bound socket that the connection was made from
  unfoldable pub unbind_peer : ℕ → Run Unit
  unbind_peer i = do
    h ← get_heap
    put_heap (set_id h i (record (h.ids i) { dst_port = empty_port; dst_ip = empty_ip }))

  -- `REQUEST_GRANTED_FIFO`
  unfoldable pub grant : ℕ → Name → Run ℤ
  unfolding write_char_to_fifo_name
  grant i none = do _ ← sys (call os (release_id i)); pure failure
  grant i (some name) = do
    result ← sys (write_char_to_fifo_name os (some name) b'K')
    _ ← sys (call os (release_id i))
    pure result

  unfoldable pub grant_from : Option ℕ → Run ℤ
  unfolding unbind_peer grant get_connect_fifo_read_end_name
  grant_from none = pure failure
  grant_from (some i) = do
    _ ← unbind_peer i
    h ← get_heap
    name ← sys (get_connect_fifo_read_end_name os (some (h.ids i)))
    grant i name

  unfoldable pub notify_connect_client : ℕ → Run ℤ
  unfolding create_socket_end_fifos copy_socket_id grant_from
  notify_connect_client s = do
    sock ← get_sock s
    i ← deref sock.id
    h ← get_heap
    made ← sys (create_socket_end_fifos os (some (h.ids i)))
    if eq_ℤ made (pos 0) then (do old_id ← copy_socket_id os i; grant_from old_id) else pure failure

  unfoldable pub write_reply : List ℕ → ℤ → Run ℤ
  write_reply reply fd = if eq_ℤ fd no_fd then pure failure else (do
    written ← sys (call os (write_file fd (reply ++ 0 ∷ [])))
    _ ← sys (call os (close_file fd))
    pure (if eq_ℤ written (pos (suc (length reply))) then pos 0 else failure))

  unfoldable pub announce : ℕ → List ℕ → Name → Run ℤ
  unfolding write_reply
  announce i reply none = do _ ← sys (call os (release_id i)); pure failure
  announce i reply (some name) = do
    fd ← sys (opened os name OpenMode.write_only_nonblock)
    result ← write_reply reply fd
    _ ← sys (call os (release_id i))
    pure result

  unfoldable pub announce_from : ℕ → Option ℕ → Run ℤ
  unfolding unbind_peer announce get_accept_fifo_write_end_name peer_repr
  announce_from j none = pure failure
  announce_from j (some i) = do
    _ ← unbind_peer i
    h ← get_heap
    name ← sys (get_accept_fifo_write_end_name os (some (h.ids i)))
    announce i (peer_repr (h.ids j)) name

  unfoldable pub notify_accept_client : ℕ → Run ℤ
  unfolding copy_socket_id announce_from
  notify_accept_client s = do
    sock ← get_sock s
    i ← deref sock.id
    old_id ← copy_socket_id os i
    announce_from i old_id
