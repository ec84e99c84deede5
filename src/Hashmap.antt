-- ===== src/Hashmap.antt =====
-- Hashmap.c and Hashmap.h: the table of the sockets of a manager, two arrays side by side. `none`
-- is NULL, for a map, a socket and a key alike. The map holds pointers, read through the heap.
-- `hashDestroy` frees sockets and stands in Manager/Sockets.
pub mod Table
pub mod Insert
pub mod Remove
pub mod Iterate
pub mod Frame
use network_layer_verificati.Prelude.{
  ℕ, zero, suc, ◌+◌, ◌-◌, Bool, true, false, ◌||◌, Option, none, some, List, [], ◌∷◌, leb, ◌==◌,
  if◌then◌else◌, is_some, drop, ℤ, pos, negsuc, ◌+ℤ◌, ◌-ℤ◌, eq_ℤ, to_int, replicate,
}
use network_layer_verificati.SocketId.{same_id}
use network_layer_verificati.Heap.{Heap}

abbrev pub hash_map_default_size : ℕ
hash_map_default_size = 100

-- an array of pointers
abbrev pub Pointers : Type 0
Pointers = List (Option ℕ)

pub record HashMap : Type 0 where
  pub size : ℕ
  pub number_of_sockets : ℤ
  pub table : Pointers
  pub socket_id : Pointers
  pub iterator_index : ℕ

-- The argument is whether `xmalloc` gave memory. The code does not check it: without memory it
-- writes through NULL, and `none` is no result.
unfoldable pub create_hash_map : Bool → Option HashMap
create_hash_map false = none
create_hash_map true = some (record {
  size = hash_map_default_size;
  number_of_sockets = pos 0;
  table = replicate hash_map_default_size none;
  socket_id = replicate hash_map_default_size none;
  iterator_index = 0;
})

unfoldable pub compare_keys : Heap → ℕ → ℕ → Bool
compare_keys h key1 key2 = if key1 == key2 then true else same_id (h.ids key1) (h.ids key2)

unfoldable pub has_key_from : Heap → Pointers → ℕ → Bool
has_key_from h [] k = false
has_key_from h (none ∷ ks) k = has_key_from h ks k
has_key_from h (some j ∷ ks) k = if compare_keys h j k then true else has_key_from h ks k

unfoldable pub has_key : Heap → Option HashMap → Option ℕ → Bool
unfolding has_key_from
has_key h none key = false
has_key h (some m) none = false
has_key h (some m) (some k) = has_key_from h m.socket_id k

unfoldable pub get_hash_map_size : HashMap → ℕ
get_hash_map_size m = m.size

unfoldable pub get_hash_map_number_of_sockets : Option HashMap → ℤ
get_hash_map_number_of_sockets none = negsuc 0
get_hash_map_number_of_sockets (some m) = m.number_of_sockets

abbrev pub cons_both :
    Option ℕ → Option ℕ → Option (Pointers × Pointers) → Option (Pointers × Pointers)
cons_both t k none = none
cons_both t k (some (ts, ks)) = some (t ∷ ts, k ∷ ks)

-- The loop of `insertSocket`: the arrays with the socket in the first free slot of the table.
unfoldable pub insert_from : ℕ → Option ℕ → Pointers → Pointers → Option (Pointers × Pointers)
insert_from s id (none ∷ ts) (k ∷ ks) = some (some s ∷ ts, id ∷ ks)
insert_from s id (some t ∷ ts) (k ∷ ks) = cons_both (some t) k (insert_from s id ts ks)
insert_from s id _ _ = none

inserted : HashMap → Option (Pointers × Pointers) → Bool × Option HashMap
inserted m none = (false, some m)
inserted m (some (ts, ks)) = (
  true,
  some (record m {
    table = ts;
    socket_id = ks;
    number_of_sockets = to_int (m.number_of_sockets +ℤ pos 1);
  }),
)

unfoldable pub insert_socket : Heap → Option HashMap → Option ℕ → Bool × Option HashMap
unfolding inserted
insert_socket h none socket = (false, none)
insert_socket h (some m) none = (false, some m)
insert_socket h (some m) (some s) =
    if eq_ℤ m.number_of_sockets (pos hash_map_default_size)
    then (false, some m)
    else if has_key h (some m) ((h.socks s).id)
    then (false, some m)
    else inserted m (insert_from s ((h.socks s).id) m.table m.socket_id)

unfoldable pub get_from : Heap → ℕ → Pointers → Pointers → Option ℕ
get_from h key (some t ∷ ts) (some k ∷ ks) =
    if compare_keys h key k then some t else get_from h key ts ks
get_from h key (t ∷ ts) (k ∷ ks) = get_from h key ts ks
get_from h key _ _ = none

unfoldable pub get_socket : Heap → Option HashMap → Option ℕ → Option ℕ
get_socket h none key = none
get_socket h (some m) none = none
get_socket h (some m) (some k) =
    if eq_ℤ (get_hash_map_number_of_sockets (some m)) (pos 0)
    then none
    else if has_key h (some m) (some k)
    then get_from h k m.table m.socket_id
    else none

-- the test against the key of the socket in a slot; `none` for a socket with no identity, whose
-- NULL the code would read
key_matches : Heap → ℕ → Option ℕ → Bool
key_matches h key none = false
key_matches h key (some k) = compare_keys h key k

-- The loop of `hashmapRemove`: the arrays with the first slot of that key cleared.
unfoldable pub remove_from : Heap → ℕ → Pointers → Pointers → Option (Pointers × Pointers)
unfolding key_matches
remove_from h key (none ∷ ts) (k ∷ ks) = cons_both none k (remove_from h key ts ks)
remove_from h key (some t ∷ ts) (k ∷ ks) =
    if key_matches h key ((h.socks t).id)
    then some (none ∷ ts, none ∷ ks)
    else cons_both (some t) k (remove_from h key ts ks)
remove_from h key _ _ = none

removed : HashMap → Option (Pointers × Pointers) → Bool × Option HashMap
removed m none = (false, some m)
removed m (some (ts, ks)) = (
  true,
  some (record m {
    table = ts;
    socket_id = ks;
    number_of_sockets = to_int (m.number_of_sockets -ℤ pos 1);
  }),
)

unfoldable pub hashmap_remove : Heap → Option HashMap → Option ℕ → Bool × Option HashMap
unfolding removed
hashmap_remove h none key = (false, none)
hashmap_remove h (some m) none = (false, some m)
hashmap_remove h (some m) (some k) = removed m (remove_from h k m.table m.socket_id)

-- The first pointer from index `i` on that is not NULL, with its index. `n` indices are left.
unfoldable pub next_id_from : ℕ → ℕ → Pointers → Option (ℕ × ℕ)
next_id_from zero i ks = none
next_id_from (suc n) i [] = none
next_id_from (suc n) i (none ∷ ks) = next_id_from n (suc i) ks
next_id_from (suc n) i (some k ∷ ks) = some (i, k)

unfoldable pub step_to : HashMap → Option (ℕ × ℕ) → Option ℕ × HashMap
step_to m none = (none, m)
step_to m (some (i, k)) = (some k, record m { iterator_index = i })

unfoldable pub hash_map_get_first : HashMap → Option ℕ × HashMap
unfolding step_to get_hash_map_size
hash_map_get_first m = step_to m (next_id_from (get_hash_map_size m) 0 m.socket_id)

unfoldable pub hash_map_get_next : HashMap → Option ℕ × HashMap
unfolding step_to get_hash_map_size
hash_map_get_next m =
    if leb (get_hash_map_size m) m.iterator_index
    then (none, m)
    else let i = suc m.iterator_index in
      step_to (record m { iterator_index = i })
        (next_id_from (get_hash_map_size m - i) i (drop i m.socket_id))
