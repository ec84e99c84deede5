-- ===== src/Client/Bind.antt =====
-- `SocketBind` of network.c.
use network_layer_verificati.Prelude.{
  ℕ, zero, suc, Bool, true, false, Option, none, some, List, [], ◌∷◌, ◌++◌, if◌then◌else◌, leb,
  ◌==◌, length, get_or, ℤ, pos, negsuc, ◌+ℤ◌, eq_ℤ, to_int,
}
use network_layer_verificati.SocketId.{SocketState, get_socket_state, max_ip_length}
use network_layer_verificati.Os.{Answers, OpenMode, write_file, process_id, call}
use network_layer_verificati.Fifo.{
  failure, no_fd, get_bind_requests_fifo_name, get_client_fifo_name,
}
use network_layer_verificati.Fifo.Io.{opened, makes}
use network_layer_verificati.Fifo.Read.{read_entire_message}
use network_layer_verificati.Fifo.Requests.{bind_request}
use network_layer_verificati.Client.{
  Status, success, invalid_argument, memory_error, request_denied, Address, Run, ◌>>=◌, pure, sys,
  waits, undefined, unless_null, get_id, put_id, close, unlink,
}

abbrev pub is_empty_state : SocketState → Bool
is_empty_state SocketState.empty_socket = true
is_empty_state _ = false

abbrev count_socket : Run ℤ
count_socket c = let n = to_int (c.socket_count +ℤ pos 1) in some (n, record c { socket_count = n })

-- An address longer than its array has no result.
unfoldable pub store_src : ℕ → List ℕ → ℤ → Run Unit
store_src i addr port =
    if leb (length addr) max_ip_length
    then (do f ← get_id i; put_id i (record f { src_ip = addr; src_port = port }))
    else undefined

module _ (os : Answers) (fuel : ℕ) where
  leave_bind : ℤ → List ℕ → Run Unit
  unfolding close unlink
  leave_bind my_fifo_fd my_fifo_name = do _ ← close os my_fifo_fd; unlink os my_fifo_name

  -- The byte of the answer; `none` after an error. Other lengths than 0 and 1 cannot be read.
  await_bind : ℕ → ℤ → List ℕ → Run (Option ℕ)
  unfolding read_entire_message leave_bind
  await_bind zero my_fifo_fd my_fifo_name = undefined
  await_bind (suc rounds) my_fifo_fd my_fifo_name = do
    (read_size, answer) ← waits (read_entire_message os fuel my_fifo_fd (pos 1))
    if eq_ℤ read_size failure
        then (do _ ← leave_bind my_fifo_fd my_fifo_name; pure none)
        else if eq_ℤ read_size (pos 1)
        then (do _ ← leave_bind my_fifo_fd my_fifo_name; pure (some (get_or answer 0 0)))
        else if eq_ℤ read_size (pos 0)
        then await_bind rounds my_fifo_fd my_fifo_name
        else undefined

  finish_bind : ℕ → List ℕ → ℤ → ℕ → Run Status
  unfolding store_src
  finish_bind i addr port answer =
      if answer == b'K' then (do _ ← store_src i addr port; pure success) else pure request_denied

  request_bind : ℕ → List ℕ → ℤ → ℤ → ℤ → ℤ → List ℕ → Run Status
  unfolding bind_request await_bind finish_bind leave_bind close
  request_bind i addr port socket_counter bind_request_fifo_fd my_fifo_fd my_fifo_name = do
    pid ← sys (call os process_id)
    let message : List ℕ = bind_request port pid socket_counter
    written ← sys (call os (write_file bind_request_fifo_fd (message ++ 0 ∷ [])))
    if eq_ℤ written failure
        then (do
          _ ← close os my_fifo_fd
          _ ← close os bind_request_fifo_fd
          _ ← unlink os my_fifo_name
          pure memory_error)
        else (do
          _ ← close os bind_request_fifo_fd
          answer ← await_bind fuel my_fifo_fd my_fifo_name
          unless_null answer memory_error (λ a. finish_bind i addr port a))

  -- Where the fifo for the answer cannot be made, the code returns -1, which is no `Status`.
  open_bind : ℕ → List ℕ → ℤ → ℤ → List ℕ → List ℕ → Run Status
  unfolding request_bind makes close unlink
  open_bind i addr port socket_counter bind_request_fifo_name my_fifo_name = do
    bind_request_fifo_fd ← sys (opened os bind_request_fifo_name OpenMode.write_only)
    if eq_ℤ bind_request_fifo_fd no_fd then pure memory_error else (do
      made ← sys (makes os my_fifo_name)
      if made
          then (do
            my_fifo_fd ← sys (opened os my_fifo_name OpenMode.read_only_nonblock)
            if eq_ℤ my_fifo_fd no_fd
                then (do
                  _ ← unlink os my_fifo_name
                  _ ← close os bind_request_fifo_fd
                  pure memory_error)
                else request_bind i addr port socket_counter bind_request_fifo_fd my_fifo_fd
                    my_fifo_name)
          else pure (negsuc 0))

  bind_names : ℕ → List ℕ → ℤ → Run Status
  unfolding open_bind get_bind_requests_fifo_name get_client_fifo_name
  bind_names i addr port = do
    bind_request_fifo_name ← sys (get_bind_requests_fifo_name os addr)
    unless_null bind_request_fifo_name memory_error (λ request_name. do
      pid ← sys (call os process_id)
      socket_counter ← count_socket
      my_fifo_name ← sys (get_client_fifo_name os pid socket_counter)
      unless_null my_fifo_name memory_error
          (λ my_name. open_bind i addr port socket_counter request_name my_name))

  unfoldable pub bind_to_address : ℕ → Address → Option (List ℕ) → Run Status
  unfolding bind_names get_socket_state
  bind_to_address i a none = pure invalid_argument
  bind_to_address i a (some addr) = do
    f ← get_id i
    if is_empty_state (get_socket_state (some f))
        then bind_names i addr a.port
        else pure invalid_argument

  unfoldable pub socket_bind : Option ℕ → Option Address → Run Status
  unfolding bind_to_address
  socket_bind (some i) (some a) = bind_to_address i a a.addr
  socket_bind _ _ = pure invalid_argument
