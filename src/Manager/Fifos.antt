-- ===== src/Manager/Fifos.antt =====
-- The fifos of a manager in network_manager/network_manager.c: `initialize_network_manager_fifos`
-- and `should_terminate_manager`; `init_fifo_directory` of fifo_utils.c.
use network_layer_verificati.Prelude.{
  ℕ, Bool, true, false, ◌&&◌, ◌||◌, none, some, is_some, if◌then◌else◌, ℤ, pos, eq_ℤ,
}
use network_layer_verificati.Os.{
  Answers, OpenMode, stat_directory, make_directory, close_file, call,
}
use network_layer_verificati.Fifo.{
  Name, failure, no_fd, get_terminate_fifo_name, get_in_packet_fifo_name,
  get_bind_requests_fifo_name, get_connect_requests_fifo_name,
}
use network_layer_verificati.Fifo.Io.{opened, makes, unlink_name}
use network_layer_verificati.Fifo.Read.{read_entire_message}
use network_layer_verificati.World.{ManagerFds, Run, ◌>>=◌, pure, sys, waits}
use network_layer_verificati.Manager.{get_ip}

-- the names of the four fifos
pub record FifoNames : Type 0 where
  pub terminate_name : Name
  pub in_packet_name : Name
  pub bind_request_name : Name
  pub connect_request_name : Name

abbrev put_fds : ManagerFds → Run Unit
put_fds fds w = some (tt, record w { fds = fds })

abbrev pub get_manager_fds : Run ManagerFds
get_manager_fds w = some (w.fds, w)

module _ (os : Answers) where
  unfoldable pub init_fifo_directory : Run ℤ
  init_fifo_directory = do
    there ← sys (call os stat_directory)
    if eq_ℤ there failure then sys (call os make_directory) else pure (pos 0)

  unfoldable pub manager_fifo_names : Run FifoNames
  unfolding get_terminate_fifo_name get_in_packet_fifo_name get_bind_requests_fifo_name
      get_connect_requests_fifo_name
  manager_fifo_names = do
    ip ← get_ip
    terminate_fifo_name ← sys (get_terminate_fifo_name os ip)
    in_packet_fifo_name ← sys (get_in_packet_fifo_name os ip)
    bind_request_fifo_name ← sys (get_bind_requests_fifo_name os ip)
    connect_request_fifo_name ← sys (get_connect_requests_fifo_name os ip)
    pure (record {
      terminate_name = terminate_fifo_name;
      in_packet_name = in_packet_fifo_name;
      bind_request_name = bind_request_fifo_name;
      connect_request_name = connect_request_fifo_name;
    })

  -- `mkfifo`, which refuses NULL with an error, where the calls before it have succeeded
  make_next : Name → Bool → Run Bool
  unfolding makes
  make_next name false = pure false
  make_next none true = pure false
  make_next (some name) true = sys (makes os name)

  make_manager_fifos : FifoNames → Run Bool
  unfolding make_next
  make_manager_fifos names = do
    made ← make_next names.terminate_name true
    made ← make_next names.in_packet_name made
    made ← make_next names.bind_request_name made
    make_next names.connect_request_name made

  -- `open`, which refuses NULL with an error
  open_name : Name → Run ℤ
  open_name none = pure no_fd
  open_name (some name) = sys (opened os name OpenMode.read_only_nonblock)

  open_manager_fifos : FifoNames → Run ℤ
  unfolding open_name
  open_manager_fifos names = do
    terminate_fd ← open_name names.terminate_name
    in_packet_fd ← open_name names.in_packet_name
    bind_request_fd ← open_name names.bind_request_name
    connect_request_fd ← open_name names.connect_request_name
    _ ← put_fds (record {
      in_packet_fifo_fd = in_packet_fd;
      bind_request_fifo_fd = bind_request_fd;
      connect_request_fifo_fd = connect_request_fd;
      terminate_fifo_fd = terminate_fd;
    })
    pure (
        if eq_ℤ terminate_fd no_fd
          || eq_ℤ in_packet_fd no_fd
          || eq_ℤ bind_request_fd no_fd
          || eq_ℤ connect_request_fd no_fd
        then failure
        else pos 0)

  -- The test asks for the name of the packets' fifo twice, and not for that of the bind requests'.
  unfoldable pub initialize_network_manager_fifos : Run ℤ
  unfolding manager_fifo_names make_manager_fifos open_manager_fifos
  initialize_network_manager_fifos = do
    names ← manager_fifo_names
    if is_some names.terminate_name
          && is_some names.in_packet_name
          && is_some names.connect_request_name
        then (do
          made ← make_manager_fifos names
          if made then open_manager_fifos names else pure failure)
        else pure failure

  -- the start of `unlink_and_clean_manager`: `fd` is tested, but it is the other that is closed
  close_terminate_if : ℤ → ℤ → Run Unit
  close_terminate_if fd terminate_fd =
      if eq_ℤ fd no_fd then pure tt else (do _ ← sys (call os (close_file terminate_fd)); pure tt)

  unfoldable pub close_manager_fifos : Run Unit
  unfolding close_terminate_if
  close_manager_fifos = do
    fds ← get_manager_fds
    _ ← close_terminate_if fds.terminate_fifo_fd fds.terminate_fifo_fd
    _ ← close_terminate_if fds.in_packet_fifo_fd fds.terminate_fifo_fd
    _ ← close_terminate_if fds.bind_request_fifo_fd fds.terminate_fifo_fd
    close_terminate_if fds.connect_request_fifo_fd fds.terminate_fifo_fd

  unfoldable pub unlink_manager_fifos : Run Unit
  unfolding manager_fifo_names unlink_name
  unlink_manager_fifos = do
    names ← manager_fifo_names
    _ ← sys (unlink_name os names.terminate_name)
    _ ← sys (unlink_name os names.in_packet_name)
    _ ← sys (unlink_name os names.bind_request_name)
    sys (unlink_name os names.connect_request_name)

  unfoldable pub should_terminate_manager : ℕ → Run Bool
  unfolding read_entire_message
  should_terminate_manager fuel = do
    fds ← get_manager_fds
    (read_length, _) ← waits (read_entire_message os fuel fds.terminate_fifo_fd (pos 1))
    pure (eq_ℤ read_length (pos 1))
