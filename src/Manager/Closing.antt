-- ===== src/Manager/Closing.antt =====
-- The end of a socket in network_manager/network_manager.c: `check_and_handle_closed_socket`,
-- `check_and_handle_close_command` and `check_and_handle_socket_end_fifo`.
use network_layer_verificati.Prelude.{
  ℕ, Bool, true, false, some, List, [], ◌∷◌, if◌then◌else◌, ℤ, pos, ◌+ℤ◌, ◌-ℤ◌, eq_ℤ, to_int,
}
use network_layer_verificati.ByteQueue.{queue_size}
use network_layer_verificati.SocketId.{empty_ip, empty_port}
use network_layer_verificati.Heap.{TcpState}
use network_layer_verificati.Os.{Answers, OpenMode, close_file, write_file, read_clock, call}
use network_layer_verificati.Fifo.{no_fd, get_end_fifo_read_end_name, get_end_fifo_write_end_name}
use network_layer_verificati.Fifo.Io.{opened}
use network_layer_verificati.Fifo.Read.{read_byte}
use network_layer_verificati.World.{
  Run, ◌>>=◌, pure, sys, waits, deref, get_heap, get_sock, put_sock, unless_null,
}
use network_layer_verificati.Socket.{longer_than, socket_timeout, copy_socket_id, destroy_socket_id}
use network_layer_verificati.Manager.{find_socket}
use network_layer_verificati.Manager.Bind.{break_iteration}
use network_layer_verificati.Manager.Connect.{is_closed, set_peer}
use network_layer_verificati.Manager.Remove.{remove_and_destroy_socket}

abbrev pub is_syn_sent : TcpState → Bool
is_syn_sent TcpState.syn_sent = true
is_syn_sent _ = false

module _ (os : Answers) where
  -- `E` to the client
  unfoldable pub write_end : List ℕ → Run Unit
  write_end name = do
    end_fifo_read_fd ← sys (opened os name OpenMode.read_write)
    if eq_ℤ end_fifo_read_fd no_fd then pure tt else (do
      _ ← sys (call os (write_file end_fifo_read_fd (b'E' ∷ [])))
      _ ← sys (call os (close_file end_fifo_read_fd))
      pure tt)

  unfoldable pub retire : ℕ → ℕ → Run ℤ
  unfolding write_end get_end_fifo_read_end_name remove_and_destroy_socket
  retire id_for_fifo s = do
    h ← get_heap
    end_fifo_read_name ← sys (get_end_fifo_read_end_name os (some (h.ids id_for_fifo)))
    unless_null end_fifo_read_name (pos 0) (λ name. do
      _ ← write_end name
      sock ← get_sock s
      i ← deref sock.id
      _ ← remove_and_destroy_socket os i
      pure break_iteration)

  -- The clock is read only for a closed socket.
  unfoldable pub check_and_handle_closed_socket : ℕ → ℕ → Run ℤ
  unfolding retire
  check_and_handle_closed_socket id_for_fifo s = do
    sock ← get_sock s
    if is_closed sock.state
        then (do
          now ← sys (call os read_clock)
          if longer_than socket_timeout (now -ℤ sock.creation_time)
              then retire id_for_fifo s
              else pure (pos 0))
        else pure (pos 0)

  forget_peer : ℕ → Run Unit
  unfolding set_peer
  forget_peer s = do
    sock ← get_sock s
    i ← deref sock.id
    if is_syn_sent sock.state then set_peer i empty_ip empty_port else pure tt

  -- The FIN has the number behind what the send window holds.
  unfoldable pub close_by_command : ℕ → Run Unit
  unfolding forget_peer queue_size
  close_by_command s = do
    _ ← forget_peer s
    sock ← get_sock s
    now ← sys (call os read_clock)
    put_sock s (record sock {
      seq_of_first_send_window =
          to_int (sock.seq_of_first_send_window +ℤ queue_size sock.send_window);
      state = TcpState.fin_wait_1;
      time_since_fin_sent = now;
    })

  unfoldable pub read_command : ℕ → List ℕ → Run ℤ
  unfolding close_by_command read_byte
  read_command s name = do
    end_fifo_write_fd ← sys (opened os name OpenMode.read_only)
    if eq_ℤ end_fifo_write_fd no_fd then pure (pos 0) else (do
      (read_length, _) ← waits (read_byte os end_fifo_write_fd)
      _ ← if eq_ℤ read_length (pos 1) then close_by_command s else pure tt
      _ ← sys (call os (close_file end_fifo_write_fd))
      pure (pos 0))

  -- The client waits at the read end if it can be opened.
  await_command : ℕ → List ℕ → List ℕ → Run ℤ
  unfolding read_command
  await_command s write_name read_name = do
    end_fifo_read_fd ← sys (opened os read_name OpenMode.write_only_nonblock)
    if eq_ℤ end_fifo_read_fd no_fd
        then pure (pos 0)
        else (do _ ← sys (call os (close_file end_fifo_read_fd)); read_command s write_name)

  unfoldable pub check_and_handle_close_command : ℕ → ℕ → Run ℤ
  unfolding await_command get_end_fifo_read_end_name get_end_fifo_write_end_name
  check_and_handle_close_command id_for_fifo s = do
    h ← get_heap
    end_fifo_write_name ← sys (get_end_fifo_write_end_name os (some (h.ids id_for_fifo)))
    unless_null end_fifo_write_name (pos 0) (λ write_name. do
      end_fifo_read_name ← sys (get_end_fifo_read_end_name os (some (h.ids id_for_fifo)))
      unless_null end_fifo_read_name (pos 0) (λ read_name. await_command s write_name read_name))

  close_command_or_timeout : ℕ → ℕ → Run ℤ
  unfolding check_and_handle_close_command check_and_handle_closed_socket
  close_command_or_timeout id_for_fifo s = do
    result ← check_and_handle_close_command id_for_fifo s
    if eq_ℤ result (pos 0) then check_and_handle_closed_socket id_for_fifo s else pure result

  -- A socket that is not connected yet has its end fifo under the identity with no peer.
  end_unconnected : ℕ → ℕ → Run ℤ
  unfolding close_command_or_timeout copy_socket_id destroy_socket_id set_peer
  end_unconnected sock_id s = do
    copy ← copy_socket_id os sock_id
    unless_null copy (pos 0) (λ id_for_fifo. do
      _ ← set_peer id_for_fifo empty_ip empty_port
      result ← close_command_or_timeout id_for_fifo s
      _ ← destroy_socket_id os (some id_for_fifo)
      pure result)

  unfoldable pub check_and_handle_socket_end_fifo : ℕ → Run ℤ
  unfolding end_unconnected close_command_or_timeout
  check_and_handle_socket_end_fifo sock_id = do
    found ← find_socket sock_id
    unless_null found (pos 0) (λ s. do
      sock ← get_sock s
      if is_syn_sent sock.state
          then end_unconnected sock_id s
          else close_command_or_timeout sock_id s)
