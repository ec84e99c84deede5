-- ===== src/Fifo/Io.antt =====
-- fifo_utils.c: what is written to the fifos, and the fifos of a socket.
use network_layer_verificati.Prelude.{
  ℕ, Bool, true, false, Option, none, some, List, [], ◌∷◌, if◌then◌else◌, ℤ, pos, eq_ℤ, take,
}
use network_layer_verificati.SocketId.{SocketId}
use network_layer_verificati.Heap.{SocketFds}
use network_layer_verificati.Os.{
  open_file, make_fifo, remove_file, close_file, write_file, OpenMode, Sys, Answers, ◌>>=◌, pure,
  call,
}
use network_layer_verificati.Fifo.{
  Name, failure, no_fd, get_listen_fifo_read_end_name, get_listen_fifo_write_end_name,
  get_accept_fifo_write_end_name, get_socket_send_fifo_name, get_socket_recv_fifo_name,
  get_end_fifo_read_end_name, get_end_fifo_write_end_name,
}

module _ (os : Answers) where
  -- a descriptor, or -1
  abbrev pub opened : List ℕ → OpenMode → Sys ℤ
  opened name mode = call os (open_file name mode)

  write_char : ℕ → ℤ → Sys ℤ
  write_char c fd = if eq_ℤ fd no_fd then pure failure else (do
    written ← call os (write_file fd (c ∷ []))
    _ ← call os (close_file fd)
    pure (if eq_ℤ written failure then failure else pos 0))

  unfoldable pub write_char_to_fifo_name : Name → ℕ → Sys ℤ
  unfolding write_char
  write_char_to_fifo_name none to_write = pure failure
  write_char_to_fifo_name (some name) to_write = do
    fd ← opened name OpenMode.read_write
    write_char to_write fd

  unfoldable pub write_string : List ℕ → ℤ → Sys ℤ
  write_string s fd =
      if eq_ℤ fd no_fd
      then pure failure
      else (do written ← call os (write_file fd s); _ ← call os (close_file fd); pure written)

  -- `to_write` is the string and `len` the bytes of it that are written.
  unfoldable pub write_string_to_fifo_name : Name → List ℕ → ℕ → Sys ℤ
  unfolding write_string
  write_string_to_fifo_name none to_write len = pure failure
  write_string_to_fifo_name (some name) to_write len = do
    fd ← opened name OpenMode.write_only_nonblock
    write_string (take len to_write) fd

  close_if_open : ℤ → Sys Unit
  close_if_open fd = if eq_ℤ fd no_fd then pure tt else (do _ ← call os (close_file fd); pure tt)

  unfoldable pub close_socket_fifos : SocketFds → Sys Unit
  unfolding close_if_open
  close_socket_fifos s = do
    _ ← close_if_open s.listen_fifo_read_end
    _ ← close_if_open s.listen_fifo_write_end
    _ ← close_if_open s.accept_fifo_write_end
    _ ← close_if_open s.out_fifo_read_end
    _ ← close_if_open s.in_fifo_write_end
    _ ← close_if_open s.end_fifo_read_end
    close_if_open s.end_fifo_write_end

  -- `unlink`, which refuses NULL with an error and does nothing
  unfoldable pub unlink_name : Name → Sys Unit
  unlink_name none = pure tt
  unlink_name (some name) = do _ ← call os (remove_file name); pure tt

  unfoldable pub unlink_socket_fifos : Option SocketId → Sys Unit
  unfolding unlink_name get_listen_fifo_read_end_name get_listen_fifo_write_end_name
      get_accept_fifo_write_end_name get_socket_send_fifo_name get_socket_recv_fifo_name
      get_end_fifo_read_end_name get_end_fifo_write_end_name
  unlink_socket_fifos i = do
    listen_read ← get_listen_fifo_read_end_name os i
    listen_write ← get_listen_fifo_write_end_name os i
    accept_write ← get_accept_fifo_write_end_name os i
    out_read ← get_socket_send_fifo_name os i
    in_write ← get_socket_recv_fifo_name os i
    end_read ← get_end_fifo_read_end_name os i
    end_write ← get_end_fifo_write_end_name os i
    _ ← unlink_name listen_read
    _ ← unlink_name listen_write
    _ ← unlink_name accept_write
    _ ← unlink_name out_read
    _ ← unlink_name in_write
    _ ← unlink_name end_read
    unlink_name end_write

  -- `mkfifo`
  unfoldable pub makes : List ℕ → Sys Bool
  makes name = do r ← call os (make_fifo name); pure (eq_ℤ r (pos 0))

  remove_both : List ℕ → List ℕ → Sys ℤ
  remove_both a b = do _ ← call os (remove_file a); _ ← call os (remove_file b); pure failure

  make_second : List ℕ → List ℕ → Bool → Sys Bool
  unfolding makes
  make_second a b false = pure false
  make_second a b true = makes b

  make_both : Name → Name → Sys ℤ
  unfolding make_second remove_both makes
  make_both (some a) (some b) = do
    first ← makes a
    both ← make_second a b first
    if both then pure (pos 0) else remove_both a b
  make_both _ _ = pure failure

  unfoldable pub create_socket_end_fifos : Option SocketId → Sys ℤ
  unfolding make_both get_end_fifo_read_end_name get_end_fifo_write_end_name
  create_socket_end_fifos i = do
    end_fifo_read_name ← get_end_fifo_read_end_name os i
    end_fifo_write_name ← get_end_fifo_write_end_name os i
    make_both end_fifo_read_name end_fifo_write_name
