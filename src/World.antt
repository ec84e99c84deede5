-- ===== src/World.antt =====
-- The state of a manager's process: the heap, the manager's own fields and what it has asked of
-- the system. Code that reads through NULL has no result: `none`.
pub mod Outcome
use network_layer_verificati.Prelude.{ℕ, suc, ◌+◌, Option, none, some, List, [], ℤ, negsuc}
use network_layer_verificati.Heap.{Heap, Sock, set_sock}
use network_layer_verificati.Hashmap.{HashMap}
use network_layer_verificati.Os.{Sys, Trace}
use network_layer_verificati.Os.Waiting.{Wait}

-- the descriptors of the struct `NetworkManager`
pub record ManagerFds : Type 0 where
  pub in_packet_fifo_fd : ℤ
  pub bind_request_fifo_fd : ℤ
  pub connect_request_fifo_fd : ℤ
  pub terminate_fifo_fd : ℤ

-- as `createNetworkManager` leaves them
abbrev pub no_manager_fds : ManagerFds
no_manager_fds = record {
  in_packet_fifo_fd = negsuc 0;
  bind_request_fifo_fd = negsuc 0;
  connect_request_fifo_fd = negsuc 0;
  terminate_fifo_fd = negsuc 0;
}

-- The fields of the struct `NetworkManager`, and the heap and the calls of its process.
pub record World : Type 0 where
  pub ip : List ℕ
  pub sockets : Option HashMap
  pub fds : ManagerFds
  pub heap : Heap
  pub trace : Trace

abbrev pub Run : Type 0 → Type 0
Run A = World → Option (A × World)

-- the rest of a run, if it gets that far
abbrev pub continue :
    {A : Type 0} {B : Type 0} → (A → Run B) → Option (A × World) → Option (B × World)
continue f none = none
continue f (some (a, w)) = f a w

infixl 5 ◌>>=◌
abbrev pub ◌>>=◌ : {A : Type 0} {B : Type 0} → Run A → (A → Run B) → Run B
(m >>= f) w = continue f (m w)

abbrev pub pure : {A : Type 0} → A → Run A
pure a w = some (a, w)

abbrev pub sys : {A : Type 0} → Sys A → Run A
sys m w = let (a, t) = m w.trace in some (a, record w { trace = t })

abbrev pub resume : {A : Type 0} → World → Option (A × Trace) → Option (A × World)
resume w none = none
resume w (some (a, t)) = some (a, record w { trace = t })

-- Code that only calls the system, and may wait for it in a loop.
abbrev pub waits : {A : Type 0} → Wait A → Run A
waits m w = resume w (m w.trace)

-- the value of a pointer, which must not be NULL
abbrev pub deref : {A : Type 0} → Option A → Run A
deref none w = none
deref (some a) w = some (a, w)

-- the value of code that has no result, `none`, where C leaves it undefined
abbrev pub defined : {A : Type 0} → Option A → Run A
defined none w = none
defined (some a) w = some (a, w)

-- what C leaves undefined, such as a second `free`, and a loop that has used its fuel up
abbrev pub undefined : {A : Type 0} → Run A
undefined w = none

-- the early return of `b` where a pointer is NULL
abbrev pub unless_null : {A B : Type 0} → Option A → B → (A → Run B) → Run B
unless_null none b f w = some (b, w)
unless_null (some a) b f w = f a w

abbrev pub get_heap : Run Heap
get_heap w = some (w.heap, w)

abbrev pub get_sock : ℕ → Run Sock
get_sock s w = some (w.heap.socks s, w)

abbrev pub put_heap : Heap → Run Unit
put_heap h w = some (tt, record w { heap = h })

abbrev pub put_sock : ℕ → Sock → Run Unit
put_sock s f w = some (tt, record w { heap = set_sock w.heap s f })

abbrev pub EndsAs : {A : Type 0} → Option (A × World) → (A → World → Type 0) → Type 0
EndsAs none Q = ⊥
EndsAs (some (a, w)) Q = Q a w

-- The run has a result, and the result and the state are as said.
pub record Ends {A : Type 0} (o : Option (A × World)) (Q : A → World → Type 0) : Type 0 where
  pub end : EndsAs o Q
