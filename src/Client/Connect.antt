-- ===== src/Client/Connect.antt =====
-- `SocketConnect` of network.c.
use network_layer_verificati.Prelude.{
  ℕ, ◌+◌, Bool, true, false, Option, none, some, List, [], ◌∷◌, ◌++◌, if◌then◌else◌, leb, ltb, ◌==◌,
  length, ℤ, eq_ℤ,
}
use network_layer_verificati.SocketId.{
  SocketId, get_socket_state, max_ip_length, empty_ip, empty_port,
}
use network_layer_verificati.Os.{Answers, write_file, read_clock, call}
use network_layer_verificati.Fifo.{
  failure, is_bound_only, get_connect_fifo_read_end_name, get_connect_fifo_write_end_name,
  get_end_fifo_read_end_name, get_end_fifo_write_end_name, get_socket_send_fifo_name,
  get_socket_recv_fifo_name,
}
use network_layer_verificati.Fifo.Io.{unlink_name, create_socket_end_fifos}
use network_layer_verificati.Fifo.Names.{max_socket_string_repr_size}
use network_layer_verificati.Fifo.Requests.{connect_request}
use network_layer_verificati.Client.{
  Status, success, invalid_argument, memory_error, request_denied, Address, Run, ◌>>=◌, pure, sys,
  undefined, unless_null, get_id, put_id, close, unlink, unlink_both,
}
use network_layer_verificati.Client.Listen.{
  Answer, answered, make_pair, open_pair, await_answer, status_of,
}

-- An address longer than its array has no result.
unfoldable pub store_dst : ℕ → List ℕ → ℤ → Run Unit
store_dst i addr port =
    if leb (length addr) max_ip_length
    then (do f ← get_id i; put_id i (record f { dst_ip = addr; dst_port = port }))
    else undefined

module _ (os : Answers) where
  -- The fifos for the data of the connection; 0 where both have been made.
  unfoldable pub make_data_fifos : SocketId → Run (Option Bool)
  unfolding make_pair unlink_both get_socket_send_fifo_name get_socket_recv_fifo_name
  make_data_fifos f = do
    send_fifo_name ← sys (get_socket_send_fifo_name os (some f))
    unless_null send_fifo_name none (λ send_name. do
      recv_fifo_name ← sys (get_socket_recv_fifo_name os (some f))
      unless_null recv_fifo_name none (λ recv_name. do
        made ← make_pair os send_name recv_name
        if made
            then pure (some true)
            else (do _ ← unlink_both os send_name recv_name; pure (some false))))

  -- The identity is bound only again where the fifos cannot be made.
  finish_connection : ℕ → Option Bool → Run Status
  unfolding create_socket_end_fifos
  finish_connection i none = pure memory_error
  finish_connection i (some true) = pure success
  finish_connection i (some false) = do
    f ← get_id i
    let unbound : SocketId = record f { dst_ip = empty_ip; dst_port = empty_port }
    _ ← put_id i unbound
    _ ← sys (create_socket_end_fifos os (some unbound))
    pure memory_error

  -- The end fifos of the bound socket go, and the connection gets its own.
  unfoldable pub connected_to : ℕ → List ℕ → ℤ → Run Status
  unfolding store_dst make_data_fifos finish_connection unlink_name get_end_fifo_read_end_name
      get_end_fifo_write_end_name
  connected_to i addr port = do
    f ← get_id i
    end_fifo_read_name ← sys (get_end_fifo_read_end_name os (some f))
    end_fifo_write_name ← sys (get_end_fifo_write_end_name os (some f))
    _ ← sys (unlink_name os end_fifo_read_name)
    _ ← sys (unlink_name os end_fifo_write_name)
    _ ← store_dst i addr port
    f ← get_id i
    made ← make_data_fifos f
    finish_connection i made

  finish_connect : ℕ → List ℕ → ℤ → Answer → Run Status
  unfolding connected_to status_of
  finish_connect i addr port (answered c) =
      if c == b'K' then connected_to i addr port else pure request_denied
  finish_connect i addr port a = pure (status_of a)

  unfoldable pub leave_connect : ℤ → ℤ → List ℕ → List ℕ → Run Unit
  unfolding close unlink
  leave_connect read_fd write_fd read_name write_name = do
    _ ← close os read_fd
    _ ← unlink os read_name
    _ ← close os write_fd
    unlink os write_name

  give_up : ℤ → ℤ → List ℕ → List ℕ → Run Status
  unfolding close unlink_both
  give_up read_fd write_fd read_name write_name = do
    _ ← close os read_fd
    _ ← close os write_fd
    _ ← unlink_both os read_name write_name
    pure memory_error

module _ (os : Answers) (fuel : ℕ) where
  -- The text and two NUL bytes are printed into an array of 80 bytes.
  request_connect : ℕ → List ℕ → ℤ → List ℕ → List ℕ → Option (ℤ × ℤ) → Run Status
  unfolding connect_request await_answer leave_connect finish_connect give_up
  request_connect i addr port write_name read_name none = pure memory_error
  request_connect i addr port write_name read_name (some (read_fd, write_fd)) =
      let message : List ℕ = connect_request addr port in
      if leb (length message + 2) max_socket_string_repr_size
      then (if ltb (length message + 1) 3
          then give_up os read_fd write_fd read_name write_name
          else (do
            written ← sys (call os (write_file write_fd (message ++ 0 ∷ [])))
            if eq_ℤ written failure then give_up os read_fd write_fd read_name write_name else (do
              start ← sys (call os read_clock)
              answer ← await_answer os fuel fuel read_fd start
              _ ← leave_connect os read_fd write_fd read_name write_name
              finish_connect os i addr port answer)))
      else undefined

  make_connect : ℕ → List ℕ → ℤ → List ℕ → List ℕ → Run Status
  unfolding make_pair open_pair request_connect
  make_connect i addr port write_name read_name = do
    made ← make_pair os write_name read_name
    if made
        then (do
          fds ← open_pair os write_name read_name
          request_connect i addr port write_name read_name fds)
        else pure memory_error

  connect_names : ℕ → List ℕ → ℤ → SocketId → Run Status
  unfolding make_connect get_connect_fifo_read_end_name get_connect_fifo_write_end_name
  connect_names i addr port f = do
    connect_fifo_write_name ← sys (get_connect_fifo_write_end_name os (some f))
    connect_fifo_read_name ← sys (get_connect_fifo_read_end_name os (some f))
    unless_null connect_fifo_read_name memory_error (λ read_name.
        unless_null connect_fifo_write_name memory_error
          (λ write_name. make_connect i addr port write_name read_name))

  unfoldable pub connect_to_address : ℕ → Address → Option (List ℕ) → Run Status
  unfolding connect_names get_socket_state
  connect_to_address i a none = pure invalid_argument
  connect_to_address i a (some addr) = do
    f ← get_id i
    if is_bound_only (get_socket_state (some f))
        then connect_names i addr a.port f
        else pure invalid_argument

  unfoldable pub socket_connect : Option ℕ → Option Address → Run Status
  unfolding connect_to_address
  socket_connect (some i) (some a) = connect_to_address i a a.addr
  socket_connect _ _ = pure invalid_argument
