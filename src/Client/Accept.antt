-- ===== src/Client/Accept.antt =====
-- `SocketAccept` of network.c.
use network_layer_verificati.Prelude.{
  ℕ, zero, suc, Bool, true, false, Option, none, some, List, if◌then◌else◌, leb, length, until_nul,
  ℤ, pos, ◌-ℤ◌, eq_ℤ, ltb_ℤ,
}
use network_layer_verificati.SocketId.{get_socket_state, copy_of_id, empty_ip, empty_port}
use network_layer_verificati.Os.{Answers, OpenMode, read_clock, call}
use network_layer_verificati.Fifo.{failure, no_fd, is_bound_only, get_accept_fifo_write_end_name}
use network_layer_verificati.Fifo.Io.{opened}
use network_layer_verificati.Fifo.Names.{max_socket_string_repr_size}
use network_layer_verificati.Fifo.Read.{read_message_until_char}
use network_layer_verificati.Fifo.Requests.{scan_connect_request}
use network_layer_verificati.Socket.{longer_than, socket_timeout}
use network_layer_verificati.Client.{
  Run, ◌>>=◌, pure, sys, waits, undefined, defined, unless_null, get_id, put_id, close, allocate_id,
}
use network_layer_verificati.Client.Connect.{store_dst, make_data_fifos}

module _ (os : Answers) (fuel : ℕ) where
  -- The loop for the peer of a new connection, so many rounds at most. A message that does not fit
  -- its array has no result.
  unfoldable pub await_peer : ℕ → List ℕ → ℤ → ℤ → Run (Option (List ℕ))
  unfolding read_message_until_char close
  await_peer zero name start fd = undefined
  await_peer (suc rounds) name start fd = do
    current ← sys (call os read_clock)
    if longer_than socket_timeout (current -ℤ start)
        then (do _ ← if eq_ℤ fd no_fd then pure tt else close os fd; pure none)
        else if eq_ℤ fd no_fd
        then (do
          fd ← sys (opened os name OpenMode.read_only_nonblock)
          await_peer rounds name start fd)
        else (do
          (read_length, message) ← waits (read_message_until_char os fuel fd 0)
          if leb (length message) max_socket_string_repr_size
              then (if eq_ℤ read_length failure
                  then (do _ ← close os fd; pure none)
                  else if ltb_ℤ (pos 0) read_length
                  then (do _ ← close os fd; pure (some message))
                  else await_peer rounds name start fd)
              else undefined)

  finish_accept : ℕ → Option Bool → Run (Option ℕ)
  finish_accept i none = pure none
  finish_accept i (some true) = pure (some i)
  finish_accept i (some false) = do
    f ← get_id i
    _ ← put_id i (record f { dst_ip = empty_ip; dst_port = empty_port })
    pure none

  accept_peer : ℕ → Option (List ℕ × ℤ) → Run (Option ℕ)
  unfolding store_dst make_data_fifos finish_accept allocate_id copy_of_id
  accept_peer sockid none = pure none
  accept_peer sockid (some (ip, port)) = do
    f ← get_id sockid
    new_connection ← allocate_id os (copy_of_id f)
    unless_null new_connection none (λ i. do
      _ ← store_dst i ip port
      f ← get_id i
      made ← make_data_fifos os f
      finish_accept i made)

  scan_peer : ℕ → List ℕ → Run (Option ℕ)
  unfolding accept_peer scan_connect_request
  scan_peer sockid message = do
    scanned ← defined (scan_connect_request message)
    accept_peer sockid scanned

  accept_name : ℕ → List ℕ → Run (Option ℕ)
  unfolding await_peer scan_peer
  accept_name sockid name = do
    start ← sys (call os read_clock)
    message ← await_peer fuel name start no_fd
    unless_null message none (λ m. scan_peer sockid (until_nul m))

  unfoldable pub socket_accept : Option ℕ → Run (Option ℕ)
  unfolding accept_name get_socket_state get_accept_fifo_write_end_name
  socket_accept sockid = unless_null sockid none (λ i. do
    f ← get_id i
    if is_bound_only (get_socket_state (some f))
        then (do
          accept_fifo_name ← sys (get_accept_fifo_write_end_name os (some f))
          unless_null accept_fifo_name none (λ name. accept_name i name))
        else pure none)
