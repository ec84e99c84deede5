-- ===== src/Tests/Manager.antt =====
-- Runs of a manager with one socket, under an operating system that grants every request.
use mathlib.Core.Option.{some-injective}
use network_layer_verificati.Prelude.{
  ℕ, ◌≡◌, subst, refl, Option, none, some, ◌∷◌, ℤ, pos, take, until_nul, replicate,
}
use network_layer_verificati.ByteQueue.Contents.{contents}
use network_layer_verificati.Heap.{TcpState}
use network_layer_verificati.Hashmap.{HashMap, hash_map_default_size}
use network_layer_verificati.World.{World, Run, Ends, ◌>>=◌, pure}
use network_layer_verificati.World.Outcome.{ends}
use network_layer_verificati.Tests.Connection.{granting, world_in, three_bytes, three-IsRing}
use network_layer_verificati.Tests.Table.{heap, table, table-IsTable, peers-IsAddressed}
use network_layer_verificati.Manager.Bind.{decide_bind}
use network_layer_verificati.Manager.Bind.Decision.{Decided, decide_bind-Decided}
use network_layer_verificati.Hashmap.Frame.{AllBelow}
use network_layer_verificati.Socket.Bound.{HasMemory}
use network_layer_verificati.Tests.Table.{sock_in, heap_in}
use network_layer_verificati.Manager.UserData.{take_bytes}
use network_layer_verificati.Manager.UserData.Stream.{Taken, take_bytes-Taken}
use network_layer_verificati.Manager.Send.{packet_data, max_data_per_packet}
use network_layer_verificati.Manager.Send.Data.{Iterated, packet_data-contents}
use network_layer_verificati.Manager.Keeps.{Numbers}
use network_layer_verificati.Manager.Sweep.{for_each_socket}
use network_layer_verificati.Manager.Sweep.Rounds.{At, for_each_socket-Ends}
use network_layer_verificati.Manager.Loop.{check_and_handle_out_fifo, manager_turns}
use network_layer_verificati.Manager.Loop.Termination.{
  Identified, AllIdentified, manager_turns-Ends,
}

abbrev one_socket : HashMap
one_socket = record {
  size = hash_map_default_size;
  number_of_sockets = pos 1;
  table = some 0 ∷ replicate 99 none;
  socket_id = some 0 ∷ replicate 99 none;
  iterator_index = 0;
}

abbrev managing : TcpState → World
managing q = record (world_in q) { sockets = some one_socket }

granting-HasMemory : HasMemory granting
granting-HasMemory t = refl

-- the numbers of the socket and of its identity
abbrev numbers : Numbers
numbers = record { key = 0; port = 5000; peer_port = 80; ack = 0 }

identified : AllIdentified (managing TcpState.closed)
unfolding replicate
identified m e =
    subst (λ x. Identified (managing TcpState.closed).heap.socks x.table) (some-injective _ _ e)
      ((0, refl), tt)

manager_turns-Ends_example :
    Ends
      (manager_turns granting 1 1 (managing TcpState.closed))
      (λ r w'. (r ≡ pos 0) × (w'.heap.socks ≡ (managing TcpState.closed).heap.socks))
manager_turns-Ends_example =
    manager_turns-Ends granting 0 0 (managing TcpState.closed) one_socket refl refl identified refl

-- a body that does nothing with a socket
abbrev look : ℕ → Run (Option ℤ)
look k = check_and_handle_out_fifo k >>= (λ _. pure none)

looks_on : (k i : ℕ) (w : World) → Unit {0} → At i w → Ends (look k w) (λ _ w'. Unit {0} × At i w')
unfolding check_and_handle_out_fifo
looks_on k i w inv at = ends _ _ (tt, at)

for_each_socket-Ends_example :
    Ends (for_each_socket look (managing TcpState.closed)) (λ _ _. Unit {0})
for_each_socket-Ends_example =
    for_each_socket-Ends look (λ _. Unit) (λ w m j e inv. tt) looks_on (managing TcpState.closed)
      one_socket tt refl refl

packet_data-contents_example :
    ((packet_data (some three_bytes)).0
      ≡ take max_data_per_packet (until_nul (contents three_bytes)))
    × Iterated three_bytes (packet_data (some three_bytes)).1
packet_data-contents_example = packet_data-contents three_bytes three-IsRing

-- a manager without a socket
abbrev new_manager : World
new_manager = record (world_in TcpState.establised) { sockets = some table; heap = heap }

table-AllBelow : AllBelow 1 table.table
unfolding replicate
table-AllBelow = tt

decide_bind-Decided_example :
    Ends (decide_bind granting 0 new_manager) (Decided granting 0 new_manager table)
decide_bind-Decided_example =
    decide_bind-Decided granting 0 new_manager table granting-HasMemory refl table-IsTable
      table-AllBelow peers-IsAddressed

-- a connection with three bytes in its send window
abbrev sending : World
sending = record (world_in TcpState.establised) {
  heap = record (heap_in TcpState.establised) {
    socks = λ s. record (sock_in TcpState.establised) { send_window = some three_bytes };
  };
}

take_bytes-Taken_example :
    Ends
      (take_bytes granting 2 0 (pos 7) sending)
      (λ _ w'. Taken granting 0 (pos 7) 2 8189 three_bytes sending.trace w')
take_bytes-Taken_example =
    take_bytes-Taken granting 0 (pos 7) 2 8189 sending three_bytes refl three-IsRing refl
