-- ===== src/ByteQueue.antt =====
-- array_queue.c and array_queue.h: the ring of bytes behind a socket's send window.
-- A pointer `Queue` is an `Option`: `none` is NULL. `dequeue` reads through a NULL pointer, which
-- has no result, `none`.
pub mod Contents
pub mod Refine
pub mod Iterate
use network_layer_verificati.Prelude.{
  ℕ, zero, suc, ◌+◌, ◌-◌, Bool, true, false, Option, none, some, List, [], ◌∷◌, leb, ◌==◌,
  if◌then◌else◌, get_or, set, replicate, ℤ, pos, negsuc, eq_ℤ,
}

abbrev pub default_queue_capacity : ℕ
default_queue_capacity = 8192

abbrev pub queue_empty_element : ℕ
queue_empty_element = 0

-- `struct Queue_t`; no index of it is ever negative
pub record Queue : Type 0 where
  pub head : ℕ
  pub tail : ℕ
  pub size : ℕ
  pub array : List ℕ
  pub iterator : ℕ
  pub index_choosen : ℤ

-- The argument is whether `xmalloc` gave memory.
unfoldable pub queue_create : Bool → Option Queue
queue_create false = none
queue_create true = some (record {
  head = 0;
  tail = default_queue_capacity - 1;
  size = 0;
  array = replicate default_queue_capacity queue_empty_element;
  iterator = 0;
  index_choosen = negsuc 0;
})

unfoldable pub queue_size : Option Queue → ℤ
queue_size none = negsuc 0
queue_size (some q) = pos q.size

unfoldable pub queue_capacity : Option Queue → ℤ
queue_capacity none = negsuc 0
queue_capacity (some q) = pos default_queue_capacity

unfoldable pub queue_is_full : Option Queue → Bool
unfolding queue_size queue_capacity
queue_is_full none = false
queue_is_full (some q) =
    if eq_ℤ (queue_size (some q)) (queue_capacity (some q)) then true else false

unfoldable pub queue_is_empty : Option Queue → Bool
unfolding queue_size
queue_is_empty none = false
queue_is_empty (some q) = if eq_ℤ (queue_size (some q)) (pos 0) then true else false

-- `i - QueueCapacity(q)` once `i` has reached the end, as at each step of an index.
abbrev pub wrap : ℕ → ℕ
wrap i = if leb default_queue_capacity i then i - default_queue_capacity else i

unfoldable pub enqueue : Option Queue → ℕ → Bool × Option Queue
unfolding queue_is_full
enqueue none element = (false, none)
enqueue (some q) element = if queue_is_full (some q) then (false, some q) else (
  true,
  some (record q {
    tail = wrap (q.tail + 1);
    array = set q.array (wrap (q.tail + 1)) element;
    size = q.size + 1;
  }),
)

unfoldable pub dequeue : Option Queue → Option (ℕ × Option Queue)
unfolding queue_is_empty
dequeue none = none
dequeue (some q) = some (
    if queue_is_empty (some q) then (queue_empty_element, some q) else (
      get_or q.array q.head 0,
      some (record q {
        array = set q.array q.head queue_empty_element;
        head = wrap (q.head + 1);
        size = q.size - 1;
      }),
    ))

unfoldable pub queue_get_first : Option Queue → ℕ × Option Queue
unfolding queue_is_empty
queue_get_first none = (queue_empty_element, none)
queue_get_first (some q) =
    if queue_is_empty (some q)
    then (queue_empty_element, some q)
    else (get_or q.array q.head 0, some (record q { iterator = 0 }))

unfoldable pub queue_get_next : Option Queue → ℕ × Option Queue
queue_get_next none = (queue_empty_element, none)
queue_get_next (some q) = if leb q.size (q.iterator + 1) then (queue_empty_element, some q) else (
  get_or q.array (wrap (q.head + (q.iterator + 1))) 0,
  some (record q { iterator = q.iterator + 1 }),
)

-- The rounds of QUEUE_FOR_EACH from `item` on: the items, in order, for which the body runs.
-- `zero` is the loop out of fuel.
unfoldable pub queue_items : ℕ → ℕ → Option Queue → List ℕ
queue_items zero item q = []
queue_items (suc fuel) item q =
    let more = queue_items fuel (queue_get_next q).0 (queue_get_next q).1 in
    if item == queue_empty_element then [] else item ∷ more

-- QUEUE_FOR_EACH(item, q)
unfoldable pub queue_for_each : ℕ → Option Queue → List ℕ
unfolding queue_items
queue_for_each fuel q = queue_items fuel (queue_get_first q).0 (queue_get_first q).1

enqueue_all : Option Queue → List ℕ → Option Queue
enqueue_all q [] = q
enqueue_all q (x ∷ xs) = enqueue_all (enqueue q x).1 xs

-- One round more than a queue has bytes: enough for the loop to end by its test.
abbrev pub queue_fuel : ℕ
queue_fuel = 8193

copy_into : Option Queue → Option Queue → Option Queue
unfolding enqueue_all
copy_into none q = none
copy_into (some copied) q = enqueue_all (some copied) (queue_for_each queue_fuel q)

unfoldable pub queue_copy : Bool → Option Queue → Option Queue
unfolding copy_into
queue_copy allocated q = copy_into (queue_create allocated) q
