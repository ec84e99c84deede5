-- ===== src/Client.antt =====
-- network.c and network.h: the library of a client. The state is that of a client's process: the
-- static counter, the identities it has allocated, and its calls of the system. The `read` and
-- `open` of a fifo wait for the other side, as the system answers.
pub mod Bind
pub mod Listen
pub mod Connect
pub mod Accept
pub mod Transfer
pub mod Returns
use network_layer_verificati.Prelude.{
  ℕ, suc, Bool, true, false, Option, none, some, List, [], ◌∷◌, if◌then◌else◌, ◌==◌, leb, length, ℤ,
  pos, negsuc, eq_ℤ, ltb_ℤ,
}
use network_layer_verificati.SocketId.{SocketId, empty_socket_id, max_ip_length}
use network_layer_verificati.Heap.{update}
use network_layer_verificati.Os.{
  Answers, Sys, Trace, OpenMode, close_file, remove_file, write_file, call, allocated,
}
use network_layer_verificati.Os.Waiting.{Wait}
use network_layer_verificati.Fifo.{no_fd, get_end_fifo_read_end_name, get_end_fifo_write_end_name}
use network_layer_verificati.Fifo.Io.{opened}

-- the values of the enumeration `Status`, of which one function returns another value
abbrev pub Status : Type 0
Status = ℤ

abbrev pub success : Status
success = pos 0

abbrev pub invalid_argument : Status
invalid_argument = pos 1

abbrev pub memory_error : Status
memory_error = pos 2

abbrev pub request_denied : Status
request_denied = pos 3

abbrev pub timed_out : Status
timed_out = pos 4

-- the struct `Address`
pub record Address : Type 0 where
  pub addr : Option (List ℕ)
  pub port : ℤ

pub record Client : Type 0 where
  pub socket_count : ℤ
  pub ids : ℕ → SocketId
  pub next_id : ℕ
  pub trace : Trace

abbrev pub Run : Type 0 → Type 0
Run A = Client → Option (A × Client)

abbrev pub continue :
    {A : Type 0} {B : Type 0} → (A → Run B) → Option (A × Client) → Option (B × Client)
continue f none = none
continue f (some (a, c)) = f a c

infixl 5 ◌>>=◌
abbrev pub ◌>>=◌ : {A : Type 0} {B : Type 0} → Run A → (A → Run B) → Run B
(m >>= f) c = continue f (m c)

abbrev pub pure : {A : Type 0} → A → Run A
pure a c = some (a, c)

abbrev pub sys : {A : Type 0} → Sys A → Run A
sys m c = let (a, t) = m c.trace in some (a, record c { trace = t })

abbrev pub resume : {A : Type 0} → Client → Option (A × Trace) → Option (A × Client)
resume c none = none
resume c (some (a, t)) = some (a, record c { trace = t })

abbrev pub waits : {A : Type 0} → Wait A → Run A
waits m c = resume c (m c.trace)

-- what C leaves undefined, and a loop that has used its fuel up
abbrev pub undefined : {A : Type 0} → Run A
undefined c = none

-- the value of code that has no result, `none`, where C leaves it undefined
abbrev pub defined : {A : Type 0} → Option A → Run A
defined none c = none
defined (some a) c = some (a, c)

abbrev pub unless_null : {A B : Type 0} → Option A → B → (A → Run B) → Run B
unless_null none b f c = some (b, c)
unless_null (some a) b f c = f a c

abbrev pub get_id : ℕ → Run SocketId
get_id i c = some (c.ids i, c)

abbrev pub put_id : ℕ → SocketId → Run Unit
put_id i f c = some (tt, record c { ids = update c.ids i f })

module _ (os : Answers) where
  -- The two answers are those of `malloc`.
  unfoldable pub address_create : List ℕ → ℤ → Run (Option Address)
  address_create ip port =
      if length ip == max_ip_length
      then (do
        result_ok ← sys (allocated os)
        if result_ok
            then (do
              addr_ok ← sys (allocated os)
              pure (if addr_ok then some (record { addr = some ip; port = port }) else none))
            else pure none)
      else pure none

  -- memory for an identity with these contents
  unfoldable pub allocate_id : SocketId → Run (Option ℕ)
  allocate_id f = do ok ← sys (allocated os); if ok then store f else pure none
    where
      store : SocketId → Run (Option ℕ)
      store f c =
          some
            (some c.next_id, record c { ids = update c.ids c.next_id f; next_id = suc c.next_id })

  unfoldable pub socket_create : Run (Option ℕ)
  unfolding allocate_id empty_socket_id
  socket_create = allocate_id empty_socket_id

  unfoldable pub close : ℤ → Run Unit
  close fd = do _ ← sys (call os (close_file fd)); pure tt

  unfoldable pub unlink : List ℕ → Run Unit
  unlink name = do _ ← sys (call os (remove_file name)); pure tt

  unfoldable pub unlink_both : List ℕ → List ℕ → Run Unit
  unfolding unlink
  unlink_both a b = do _ ← unlink a; unlink b

  write_end_request : List ℕ → ℤ → Run Status
  unfolding close unlink
  write_end_request end_fifo_read_name fd = do
    written ← sys (call os (write_file fd (b'E' ∷ [])))
    _ ← close fd
    if ltb_ℤ written (pos 1)
        then pure memory_error
        else (do _ ← unlink end_fifo_read_name; pure success)

  request_end : List ℕ → List ℕ → Run Status
  unfolding write_end_request close
  request_end write_name read_name = do
    end_fifo_read_fd ← sys (opened os read_name OpenMode.read_only)
    _ ← close end_fifo_read_fd
    end_fifo_write_fd ← sys (opened os write_name OpenMode.write_only)
    if eq_ℤ end_fifo_write_fd no_fd
        then pure memory_error
        else write_end_request read_name end_fifo_write_fd

  -- The names are of the identity, which must not be NULL.
  unfoldable pub socket_close : ℕ → Run Status
  unfolding request_end get_end_fifo_read_end_name get_end_fifo_write_end_name
  socket_close i = do
    f ← get_id i
    end_fifo_write_name ← sys (get_end_fifo_write_end_name os (some f))
    unless_null end_fifo_write_name memory_error (λ write_name. do
      end_fifo_read_name ← sys (get_end_fifo_read_end_name os (some f))
      unless_null end_fifo_read_name memory_error (λ read_name. request_end write_name read_name))
