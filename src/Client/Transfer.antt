-- ===== src/Client/Transfer.antt =====
-- `SocketSend` and `SocketRecv` of network.c.
use network_layer_verificati.Prelude.{
  ℕ, zero, suc, Bool, true, false, ◌==◌, Option, none, some, List, [], if◌then◌else◌, leb, length,
  take, get_or, ℤ, pos, negsuc,
}
use network_layer_verificati.SocketId.{SocketId, SocketState, get_socket_state}
use network_layer_verificati.Os.{Answers, OpenMode, write_file, would_block, call}
use network_layer_verificati.Fifo.{
  failure, no_fd, get_socket_send_fifo_name, get_socket_recv_fifo_name,
}
use network_layer_verificati.Fifo.Io.{opened}
use network_layer_verificati.Fifo.Read.{read_bytes}
use network_layer_verificati.Prelude.{eq_ℤ}
use network_layer_verificati.Client.{
  Run, ◌>>=◌, pure, sys, waits, undefined, unless_null, get_id, close,
}

abbrev pub is_connected : SocketState → Bool
is_connected SocketState.connected_socket = true
is_connected _ = false

module _ (os : Answers) where
  -- The message must be as long as it is said to be.
  write_bytes : ℤ → List ℕ → ℤ → Run ℤ
  write_bytes fd message (negsuc n) = undefined
  write_bytes fd message (pos len) =
      if leb len (length message)
      then sys (call os (write_file fd (take len message)))
      else undefined

  write_message : List ℕ → List ℕ → ℤ → Run ℤ
  unfolding write_bytes
  write_message name message len = do
    send_fifo_fd ← sys (opened os name OpenMode.read_write)
    if eq_ℤ send_fifo_fd no_fd then pure failure else write_bytes send_fifo_fd message len

  send_connected : SocketId → List ℕ → ℤ → Run ℤ
  unfolding write_message get_socket_send_fifo_name
  send_connected f message len = do
    send_fifo_name ← sys (get_socket_send_fifo_name os (some f))
    unless_null send_fifo_name failure (λ name. write_message name message len)

  unfoldable pub socket_send : Option ℕ → Option (List ℕ) → ℤ → Run ℤ
  unfolding send_connected get_socket_state
  socket_send (some i) (some message) len = do
    f ← get_id i
    if is_connected (get_socket_state (some f)) then send_connected f message len else pure failure
  socket_send _ _ len = pure failure

  -- A `read`, and the descriptor closed. With no bytes read, the code looks at the byte in front of
  -- its buffer.
  read_once : List ℕ → ℕ → Run (Option (ℤ × List ℕ))
  unfolding read_bytes close
  read_once name buffer_len = do
    recv_fifo_fd ← sys (opened os name OpenMode.read_only)
    if eq_ℤ recv_fifo_fd no_fd then pure (some (failure, [])) else (do
      (read_length, bytes) ← waits (read_bytes os recv_fifo_fd buffer_len)
      _ ← close os recv_fifo_fd
      elim read_length [
        | negsuc n ↦ do
          again ← sys (would_block os)
          pure (if again then none else some (failure, bytes))
        | pos zero ↦ undefined
        | pos (suc n) ↦ pure (some (if get_or bytes n 0 == 1 then failure else pos (suc n), bytes))
      ])

  -- so many rounds at most
  receive : ℕ → SocketId → ℕ → Run (ℤ × List ℕ)
  unfolding read_once get_socket_recv_fifo_name
  receive zero f buffer_len = undefined
  receive (suc rounds) f buffer_len = do
    recv_fifo_name ← sys (get_socket_recv_fifo_name os (some f))
    unless_null recv_fifo_name (failure, [])
        (λ name. do
          result ← read_once name buffer_len
          elim result [ some r ↦ pure r | none ↦ receive rounds f buffer_len ])

  -- The result, and the bytes in the buffer. `has_buffer` is whether there is one.
  unfoldable pub socket_recv : ℕ → Option ℕ → Bool → ℤ → Run (ℤ × List ℕ)
  unfolding receive get_socket_state
  socket_recv fuel (some i) true (pos (suc n)) = do
    f ← get_id i
    if is_connected (get_socket_state (some f)) then receive fuel f (suc n) else pure (failure, [])
  socket_recv fuel _ _ _ = pure (failure, [])
