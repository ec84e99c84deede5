-- ===== src/Heap.antt =====
-- The sockets and identities that the manager allocates, and the pointers between them: the struct
-- `Socket` of util_types.h. A pointer is a number, and `none` is NULL. What is freed keeps its last
-- contents and its address; the calls of `free` are recorded in the trace of World.
use network_layer_verificati.Prelude.{
  ℕ, Bool, Option, List, ◌==◌, if◌then◌else◌, ℤ, ◌≡◌, ◌≢◌, arith,
}
use network_layer_verificati.ByteQueue.{Queue}
use network_layer_verificati.SocketId.{SocketId}

-- `TCPState`; the source spells ESTABLISED
pub data TcpState : Type 0 where
  closed listen syn_sent syn_received establised : TcpState
  close_wait last_ack fin_wait_1 fin_wait_2 closing time_wait : TcpState

-- the seven descriptors of a socket, -1 where nothing is open
pub record SocketFds : Type 0 where
  pub listen_fifo_read_end : ℤ
  pub listen_fifo_write_end : ℤ
  pub accept_fifo_write_end : ℤ
  pub out_fifo_read_end : ℤ
  pub in_fifo_write_end : ℤ
  pub end_fifo_read_end : ℤ
  pub end_fifo_write_end : ℤ

pub record Sock : Type 0 where
  pub id : Option ℕ
  pub state : TcpState
  pub fds : SocketFds
  pub send_window : Option Queue
  pub seq_of_first_send_window : ℤ
  pub recv_window : List ℕ
  pub max_recv_window_size : ℕ
  pub seq_of_first_recv_window : ℤ
  pub recv_window_isvalid : List Bool
  pub max_connections : ℤ
  pub last_send_clock : ℤ
  pub creation_time : ℤ
  pub time_since_fin_sent : ℤ

pub record Heap : Type 0 where
  pub ids : ℕ → SocketId
  pub socks : ℕ → Sock
  pub next_id : ℕ
  pub next_sock : ℕ

unfoldable pub update {ℓ} : {A : Type ℓ} → (ℕ → A) → ℕ → A → ℕ → A
update f p a q = if p == q then a else f q

pub update_self {ℓ} : {A : Type ℓ} (f : ℕ → A) (p : ℕ) (a : A) → update f p a p ≡ a
unfolding update
update_self f p a = ground arith

pub update_ne {ℓ} : {A : Type ℓ} (f : ℕ → A) (p q : ℕ) (a : A) → p ≢ q → update f p a q ≡ f q
unfolding update
update_ne f p q a n = ground arith

abbrev pub set_id : Heap → ℕ → SocketId → Heap
set_id h p i = record h { ids = update h.ids p i }

abbrev pub set_sock : Heap → ℕ → Sock → Heap
set_sock h p s = record h { socks = update h.socks p s }
