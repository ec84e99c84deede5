-- ===== src/Hashmap/Frame.antt =====
-- What a change of sockets that are not in a table of Hashmap.c leaves of it.
use network_layer_verificati.Prelude.{
  ℕ, ◌<◌, ◌≡◌, refl, ◌∙◌, ap, none, some, [], ◌∷◌, if◌then◌else◌,
}
use network_layer_verificati.SocketId.{SocketId, same_id}
use network_layer_verificati.Heap.{Heap, Sock}
use network_layer_verificati.Hashmap.{Pointers, HashMap}
use network_layer_verificati.Hashmap.Table.{Slots, Absent, Distinct, IsTable, lookup}

-- The sockets of the array have been allocated.
abbrev pub AllBelow : ℕ → Pointers → Type 0
AllBelow n [] = Unit
AllBelow n (none ∷ ts) = AllBelow n ts
AllBelow n (some t ∷ ts) = (t < n) × AllBelow n ts

module _ (h : Heap) (socks : ℕ → Sock) (next : ℕ) where
  -- the heap with other sockets
  abbrev pub changed : Heap
  changed = record h { socks = socks; next_sock = next }

  pub lookup-changed : (i : SocketId) (ts ks : Pointers) → lookup changed i ts ks ≡ lookup h i ts ks
  unfolding lookup
  lookup-changed i [] ks = refl
  lookup-changed i (none ∷ ts) [] = refl
  lookup-changed i (some t ∷ ts) [] = refl
  lookup-changed i (none ∷ ts) (k ∷ ks) = lookup-changed i ts ks
  lookup-changed i (some t ∷ ts) (none ∷ ks) = lookup-changed i ts ks
  lookup-changed i (some t ∷ ts) (some k ∷ ks) =
      ap (λ o. if same_id (h.ids k) i then some t else o) (lookup-changed i ts ks)

  changed-Absent : (i : SocketId) (ks : Pointers) → Absent h i ks → Absent changed i ks
  changed-Absent i [] a = tt
  changed-Absent i (none ∷ ks) a = changed-Absent i ks a
  changed-Absent i (some k ∷ ks) (n, a) = (n, changed-Absent i ks a)

  changed-Distinct : (ks : Pointers) → Distinct h ks → Distinct changed ks
  changed-Distinct [] d = tt
  changed-Distinct (none ∷ ks) d = changed-Distinct ks d
  changed-Distinct (some k ∷ ks) (a, d) = (changed-Absent (h.ids k) ks a, changed-Distinct ks d)

  module _ (n : ℕ) (keeps : (t : ℕ) → t < n → socks t ≡ h.socks t) where
    changed-Slots : (ts ks : Pointers) → AllBelow n ts → Slots h ts ks → Slots changed ts ks
    changed-Slots [] [] b s = tt
    changed-Slots [] (k ∷ ks) b s = absurd s
    changed-Slots (none ∷ ts) [] b s = absurd s
    changed-Slots (some t ∷ ts) [] b s = absurd s
    changed-Slots (none ∷ ts) (none ∷ ks) b s = changed-Slots ts ks b s
    changed-Slots (none ∷ ts) (some k ∷ ks) b s = absurd s
    changed-Slots (some t ∷ ts) (none ∷ ks) b s = absurd s
    changed-Slots (some t ∷ ts) (some k ∷ ks) (l, b) (e, a, s) =
        (ap (λ f. f.id) (keeps t l) ∙ e, a, changed-Slots ts ks b s)

    -- A change of other sockets keeps a table one.
    pub changed-IsTable : (m : HashMap) → AllBelow n m.table → IsTable h m → IsTable changed m
    changed-IsTable m b t = record {
      size_eq = t.size_eq;
      full_length = t.full_length;
      slots = changed-Slots m.table m.socket_id b t.slots;
      counted = t.counted;
      distinct = changed-Distinct m.socket_id t.distinct;
    }
