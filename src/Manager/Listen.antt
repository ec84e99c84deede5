-- ===== src/Manager/Listen.antt =====
-- `check_and_handle_listen_request` of network_manager/network_manager.c.
use network_layer_verificati.Prelude.{
  ℕ, ◌||◌, some, List, [], ◌∷◌, if◌then◌else◌, ltb, ◌-◌, get_or, ℤ, pos, negsuc, eq_ℤ,
}
use network_layer_verificati.Heap.{TcpState}
use network_layer_verificati.Os.{Answers, OpenMode, write_file, close_file, call}
use network_layer_verificati.Fifo.{
  failure, no_fd, get_listen_fifo_read_end_name, get_listen_fifo_write_end_name,
  get_accept_fifo_write_end_name,
}
use network_layer_verificati.Fifo.Io.{opened, makes}
use network_layer_verificati.Fifo.Read.{read_entire_message}
use network_layer_verificati.World.{
  Run, ◌>>=◌, pure, sys, waits, undefined, get_heap, get_sock, put_sock, unless_null,
}
use network_layer_verificati.Packets.{is_listen}
use network_layer_verificati.Packets.Steps.{set_state}
use network_layer_verificati.Manager.{find_socket}
use network_layer_verificati.Manager.Bind.{request_granted_fifo}

-- the value of a `char`, which is signed
abbrev pub char_to_int : ℕ → ℤ
char_to_int c = if ltb c 128 then pos c else negsuc (255 - c)

module _ (os : Answers) where
  -- the reply to the client and the end of the call
  grant_listen : ℕ → ℤ → ℤ → Run ℤ
  grant_listen s listen_fifo_read_fd listen_fifo_write_fd = do
    written ← sys (call os (write_file listen_fifo_read_fd (request_granted_fifo ∷ [])))
    _ ← if eq_ℤ written (pos 1) then pure tt else set_state s TcpState.closed
    _ ← sys (call os (close_file listen_fifo_write_fd))
    _ ← sys (call os (close_file listen_fifo_read_fd))
    pure (pos 0)

  -- Where the fifo cannot be made, the code frees each of the names twice.
  unfoldable pub start_listen : ℕ → List ℕ → ℕ → ℤ → ℤ → Run ℤ
  unfolding grant_listen makes
  start_listen s accept_fifo_name request listen_fifo_read_fd listen_fifo_write_fd = do
    sock ← get_sock s
    _ ← put_sock s (record sock { state = TcpState.listen; max_connections = char_to_int request })
    made ← sys (makes os accept_fifo_name)
    if made then grant_listen s listen_fifo_read_fd listen_fifo_write_fd else undefined

module _ (os : Answers) (fuel : ℕ) where
  read_listen : ℕ → List ℕ → ℤ → ℤ → Run ℤ
  unfolding start_listen read_entire_message
  read_listen s accept_fifo_name listen_fifo_read_fd listen_fifo_write_fd = do
    (read_length, request) ← waits (read_entire_message os fuel listen_fifo_write_fd (pos 1))
    if eq_ℤ read_length failure || eq_ℤ read_length (pos 0)
        then (do
          _ ← sys (call os (close_file listen_fifo_write_fd))
          _ ← sys (call os (close_file listen_fifo_read_fd))
          pure (pos 0))
        else start_listen os s accept_fifo_name (get_or request 0 0) listen_fifo_read_fd
            listen_fifo_write_fd

  open_listen : ℕ → List ℕ → List ℕ → List ℕ → Run ℤ
  unfolding read_listen
  open_listen s listen_fifo_write_name accept_fifo_name listen_fifo_read_name = do
    listen_fifo_read_fd ← sys (opened os listen_fifo_read_name OpenMode.write_only_nonblock)
    if eq_ℤ listen_fifo_read_fd no_fd then pure (pos 0) else (do
      listen_fifo_write_fd ← sys (opened os listen_fifo_write_name OpenMode.read_only)
      if eq_ℤ listen_fifo_write_fd no_fd
          then pure (pos 0)
          else read_listen s accept_fifo_name listen_fifo_read_fd listen_fifo_write_fd)

  listen_names : ℕ → ℕ → Run ℤ
  unfolding open_listen get_listen_fifo_write_end_name get_accept_fifo_write_end_name
      get_listen_fifo_read_end_name
  listen_names i s = do
    h ← get_heap
    listen_fifo_write_name ← sys (get_listen_fifo_write_end_name os (some (h.ids i)))
    unless_null listen_fifo_write_name (pos 0) (λ write_name. do
      accept_fifo_name ← sys (get_accept_fifo_write_end_name os (some (h.ids i)))
      unless_null accept_fifo_name (pos 0) (λ accept_name. do
        listen_fifo_read_name ← sys (get_listen_fifo_read_end_name os (some (h.ids i)))
        unless_null listen_fifo_read_name (pos 0)
            (λ read_name. open_listen s write_name accept_name read_name)))

  unfoldable pub check_and_handle_listen_request : ℕ → Run ℤ
  unfolding listen_names
  check_and_handle_listen_request i = do
    found ← find_socket i
    unless_null found (pos 0)
        (λ s. do sock ← get_sock s; if is_listen sock.state then pure (pos 0) else listen_names i s)
