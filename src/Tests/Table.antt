-- ===== src/Tests/Table.antt =====
-- Runs on identities and on the map of sockets.
use network_layer_verificati.Prelude.{
  ℕ, zero, suc, ap, sym, length-replicate, ◌+◌, ◌≤◌, ◌≡◌, ◌≢◌, ◌↔◌, ◌⊎◌, refl, true, false, Option,
  none, some, [], ◌∷◌, arith, length, pos, if◌then◌else◌, replicate,
}
use network_layer_verificati.SocketId.{SocketId, same_id, copy_of_id}
use network_layer_verificati.SocketId.Equality.{IsAddressed, same_id_iff, copy_of_id_lem}
use network_layer_verificati.Heap.{Heap, Sock, TcpState}
use network_layer_verificati.Hashmap.{
  HashMap, create_hash_map, insert_socket, hashmap_remove, get_socket, hash_map_default_size,
}
use network_layer_verificati.Hashmap.Table.{
  IsTable, lookup, Absent, free-Slots, get_socket-lookup, create_hash_map-IsTable,
}
use network_layer_verificati.World.{World, no_manager_fds}
use network_layer_verificati.Hashmap.{hash_map_get_first}
use network_layer_verificati.Hashmap.Iterate.{visited, pointers, visited-hash_map_get_first}
use network_layer_verificati.Hashmap.Insert.{insert_socket_lem}
use network_layer_verificati.Hashmap.Remove.{hashmap_remove_lem}
use network_layer_verificati.Window.{max_window_size}
use network_layer_verificati.Socket.{no_fds}
use network_layer_verificati.Fifo.{socket_repr}
use network_layer_verificati.Fifo.Names.{length-socket_repr, max_socket_string_repr_size}

-- a connection between two addresses
abbrev pub peers : SocketId
peers = record {
  src_port = pos 5000;
  dst_port = pos 80;
  src_ip = b'1' ∷ b'0' ∷ [];
  dst_ip = b'1' ∷ b'1' ∷ [];
}

pub peers-IsAddressed : IsAddressed peers
peers-IsAddressed = record {
  src_chars = ((omega arith, omega arith), ((omega arith, omega arith), tt));
  dst_chars = ((omega arith, omega arith), ((omega arith, omega arith), tt));
  src_short = omega arith;
  dst_short = omega arith;
}

same_id_iff_example : (same_id peers peers ≡ true) ↔ (peers ≡ peers)
same_id_iff_example = same_id_iff peers peers peers-IsAddressed peers-IsAddressed

copy_of_id_lem_example : copy_of_id peers ≡ peers
copy_of_id_lem_example = copy_of_id_lem peers peers-IsAddressed

length-socket_repr_example : length (socket_repr peers) + 1 ≤ max_socket_string_repr_size
length-socket_repr_example =
    length-socket_repr peers peers-IsAddressed (omega arith, omega arith) (omega arith, omega arith)

-- a socket in a given state, with the identity at address 0
abbrev pub sock_in : TcpState → Sock
sock_in q = record {
  id = some 0;
  state = q;
  fds = no_fds;
  send_window = none;
  seq_of_first_send_window = pos 10;
  recv_window = replicate max_window_size 0;
  max_recv_window_size = max_window_size;
  seq_of_first_recv_window = pos 0;
  recv_window_isvalid = replicate max_window_size false;
  max_connections = pos 0;
  last_send_clock = pos 0;
  creation_time = pos 0;
  time_since_fin_sent = pos 0;
}

abbrev pub heap_in : TcpState → Heap
heap_in q = record { ids = λ i. peers; socks = λ s. sock_in q; next_id = 1; next_sock = 1 }

abbrev pub heap : Heap
heap = heap_in TcpState.establised

abbrev pub table : HashMap
table = record {
  size = hash_map_default_size;
  number_of_sockets = pos 0;
  table = replicate hash_map_default_size none;
  socket_id = replicate hash_map_default_size none;
  iterator_index = 0;
}

new_table : create_hash_map true ≡ some table
unfolding create_hash_map
new_table = refl

pub table-IsTable : IsTable heap table
table-IsTable = (create_hash_map-IsTable heap new_table).0

insert_socket_lem_example :
    (((table.number_of_sockets ≡ pos hash_map_default_size)
        ⊎ ((t : ℕ) × (lookup heap peers table.table table.socket_id ≡ some t)))
      × (insert_socket heap (some table) (some 0) ≡ (false, some table)))
    ⊎ ((m' : HashMap) × (table.number_of_sockets ≢ pos hash_map_default_size)
        × (lookup heap peers table.table table.socket_id ≡ none)
        × (insert_socket heap (some table) (some 0) ≡ (true, some m'))
        × IsTable heap m'
        × ((i : SocketId)
            → IsAddressed i
            → lookup heap i m'.table m'.socket_id
              ≡ (if same_id peers i then some 0 else lookup heap i table.table table.socket_id)))
insert_socket_lem_example = insert_socket_lem heap table 0 0 table-IsTable refl peers-IsAddressed

-- a table with the socket at 0
abbrev filled : HashMap
filled = record table {
  number_of_sockets = pos 1;
  table = some 0 ∷ replicate 99 none;
  socket_id = some 0 ∷ replicate 99 none;
}

no_keys : (n : ℕ) → Absent heap peers (replicate n none)
unfolding replicate
no_keys zero = tt
no_keys (suc n) = no_keys n

filled-IsTable : IsTable heap filled
filled-IsTable =
    let (slots, free, distinct) = free-Slots heap 99 in
    record {
      size_eq = refl;
      full_length = omega (arith, length-replicate {A = Option ℕ} 99 none);
      slots = (refl, peers-IsAddressed, slots);
      counted = ap (λ n. pos (suc n)) (sym free);
      distinct = (no_keys 99, distinct);
    }

get_socket-lookup_example :
    get_socket heap (some filled) (some 0) ≡ lookup heap peers filled.table filled.socket_id
get_socket-lookup_example = get_socket-lookup heap filled 0 filled-IsTable peers-IsAddressed

hashmap_remove_lem_example :
    ((lookup heap peers filled.table filled.socket_id ≡ none)
      × (hashmap_remove heap (some filled) (some 0) ≡ (false, some filled)))
    ⊎ ((t : ℕ) × (m' : HashMap) × (lookup heap peers filled.table filled.socket_id ≡ some t)
        × (hashmap_remove heap (some filled) (some 0) ≡ (true, some m'))
        × IsTable heap m'
        × ((i : SocketId)
            → IsAddressed i
            → lookup heap i m'.table m'.socket_id
              ≡ (if same_id peers i then none else lookup heap i filled.table filled.socket_id)))
hashmap_remove_lem_example = hashmap_remove_lem heap filled 0 filled-IsTable peers-IsAddressed

abbrev filled_world : World
filled_world = record {
  heap = heap;
  sockets = some filled;
  ip = peers.src_ip;
  fds = no_manager_fds;
  trace = [];
}

visited-hash_map_get_first_example :
    visited (suc hash_map_default_size) (hash_map_get_first filled) ≡ pointers filled.socket_id
visited-hash_map_get_first_example = visited-hash_map_get_first heap filled filled-IsTable
