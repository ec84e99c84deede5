-- ===== src/Manager/Connect.antt =====
-- `check_and_handle_connect_request` of network_manager/network_manager.c.
use network_layer_verificati.Prelude.{
  ℕ, ◌+◌, ◌%◌, Bool, true, false, ◌||◌, Option, none, some, List, if◌then◌else◌, leb, length,
  until_nul, ℤ, pos, negsuc, ◌-ℤ◌, eq_ℤ,
}
use network_layer_verificati.Fifo.Requests.{scan_connect_request}
use network_layer_verificati.Heap.{TcpState, set_id}
use network_layer_verificati.Os.{
  Answers, OpenMode, close_file, call, read_time, seed_rand, read_rand,
}
use network_layer_verificati.Fifo.{
  failure, no_fd, get_connect_fifo_read_end_name, get_connect_fifo_write_end_name,
}
use network_layer_verificati.Fifo.Names.{max_socket_string_repr_size}
use network_layer_verificati.Fifo.Io.{opened}
use network_layer_verificati.Fifo.Read.{read_nonzero_message_until_char}
use network_layer_verificati.World.{
  Run, ◌>>=◌, pure, sys, waits, undefined, defined, deref, get_heap, put_heap, get_sock, put_sock,
  unless_null,
}
use network_layer_verificati.Socket.{copy_socket_id, destroy_socket_id, destroy_socket}
use network_layer_verificati.Packets.{is_listen}
use network_layer_verificati.Packets.Listen.{enter_map}
use network_layer_verificati.Manager.{find_socket}
use network_layer_verificati.Manager.Bind.{break_iteration}
use network_layer_verificati.Manager.Remove.{leave_map}

abbrev pub is_closed : TcpState → Bool
is_closed TcpState.closed = true
is_closed _ = false

-- C's `rand() % 2000 + 1`, whose remainder has the sign of its left side
abbrev pub first_sequence : ℤ → ℤ
first_sequence (pos n) = pos (n % 2000 + 1)
first_sequence (negsuc n) = pos 1 -ℤ pos ((n + 1) % 2000)

unfoldable pub set_peer : ℕ → List ℕ → ℤ → Run Unit
set_peer i dst_ip dst_port = do
  h ← get_heap
  put_heap (set_id h i (record (h.ids i) { dst_ip = dst_ip; dst_port = dst_port }))

module _ (os : Answers) where
  -- The socket, which is in no map, gets its peer and goes back into the map. `sock_id` is the
  -- pointer that the map gave.
  unfoldable pub enter_connecting : ℕ → ℕ → List ℕ → ℤ → Run ℤ
  unfolding set_peer enter_map destroy_socket
  enter_connecting sock_id s dst_ip dst_port = do
    sock ← get_sock s
    _ ← put_sock s (record sock { state = TcpState.syn_sent })
    now ← sys (call os read_time)
    _ ← sys (call os (seed_rand now))
    random ← sys (call os read_rand)
    sock ← get_sock s
    _ ← put_sock s (record sock {
      seq_of_first_send_window = first_sequence random;
      seq_of_first_recv_window = pos 0;
    })
    i ← deref sock.id
    _ ← set_peer i dst_ip dst_port
    _ ← set_peer sock_id dst_ip dst_port
    inserted ← enter_map s
    if inserted then pure break_iteration else (do _ ← destroy_socket os s; pure (pos 0))

  unfoldable pub start_connect : ℕ → List ℕ → ℤ → Run ℤ
  unfolding leave_map enter_connecting
  start_connect sock_id dst_ip dst_port = do
    found ← find_socket sock_id
    unless_null found (pos 0) (λ s. do
      sock ← get_sock s
      if is_listen sock.state then pure (pos 0) else (do
        removed ← leave_map sock_id
        if removed then enter_connecting sock_id s dst_ip dst_port else pure failure))

  -- unless the connection is there already
  unfoldable pub connect_peer : ℕ → List ℕ → ℤ → Run ℤ
  unfolding copy_socket_id set_peer destroy_socket_id start_connect
  connect_peer sock_id dst_ip dst_port = do
    copy ← copy_socket_id os sock_id
    unless_null copy (pos 0) (λ connected_client_id. do
      _ ← set_peer connected_client_id dst_ip dst_port
      connected_sock ← find_socket connected_client_id
      _ ← destroy_socket_id os (some connected_client_id)
      elim connected_sock [ some _ ↦ pure (pos 0) | none ↦ start_connect sock_id dst_ip dst_port ])

  answer_request : ℕ → ℤ → Option (List ℕ × ℤ) → Run ℤ
  unfolding connect_peer
  answer_request sock_id fd none = do _ ← sys (call os (close_file fd)); pure (pos 0)
  answer_request sock_id fd (some (dst_ip, dst_port)) = do
    _ ← sys (call os (close_file fd))
    connect_peer sock_id dst_ip dst_port

module _ (os : Answers) (fuel : ℕ) where
  -- A request or an address that does not fit its array has no result.
  read_connect : ℕ → ℤ → Run ℤ
  unfolding answer_request read_nonzero_message_until_char scan_connect_request
  read_connect sock_id fd = do
    (read_length, request) ← waits (read_nonzero_message_until_char os fuel fd 0)
    if leb (length request) max_socket_string_repr_size
        then (if eq_ℤ read_length failure || eq_ℤ read_length (pos 0)
            then (do _ ← sys (call os (close_file fd)); pure (pos 0))
            else (do
              scanned ← defined (scan_connect_request (until_nul request))
              answer_request os sock_id fd scanned))
        else undefined

  open_request : ℕ → Run ℤ
  unfolding read_connect get_connect_fifo_write_end_name
  open_request sock_id = do
    h ← get_heap
    write_end_name ← sys (get_connect_fifo_write_end_name os (some (h.ids sock_id)))
    unless_null write_end_name (pos 0) (λ name. do
      fd ← sys (opened os name OpenMode.read_only)
      if eq_ℤ fd no_fd then pure (pos 0) else read_connect sock_id fd)

  -- The client waits at the read end if it can be opened.
  open_connect : ℕ → Run ℤ
  unfolding open_request get_connect_fifo_read_end_name
  open_connect sock_id = do
    h ← get_heap
    read_end_name ← sys (get_connect_fifo_read_end_name os (some (h.ids sock_id)))
    unless_null read_end_name (pos 0) (λ name. do
      fd ← sys (opened os name OpenMode.write_only_nonblock)
      if eq_ℤ fd no_fd
          then pure (pos 0)
          else (do _ ← sys (call os (close_file fd)); open_request sock_id))

  unfoldable pub check_and_handle_connect_request : ℕ → Run ℤ
  unfolding open_connect
  check_and_handle_connect_request sock_id = do
    found ← find_socket sock_id
    unless_null found (pos 0) (λ s. do
      sock ← get_sock s
      if is_closed sock.state then open_connect sock_id else pure (pos 0))
