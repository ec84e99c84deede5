-- ===== src/Manager/Send/Data.antt =====
-- The data of the next packet: the front of the send window.
use network_layer_verificati.Prelude.{
  ℕ, zero, suc, ◌+◌, ◌≤◌, leb, ◌≡◌, refl, ◌∙◌, ap, Option, some, ◌∷◌, arith, take, ◌==◌, Bool-cases,
  inl, inr, until_nul,
}
use network_layer_verificati.ByteQueue.{
  Queue, queue_empty_element, queue_items, queue_for_each, queue_get_first, queue_get_next,
  queue_fuel, queue_is_empty,
}
use network_layer_verificati.ByteQueue.Contents.{contents, IsRing}
use network_layer_verificati.ByteQueue.Iterate.{queue_for_each-contents}
use network_layer_verificati.Manager.Send.{packet_bytes, packet_data, max_data_per_packet}

packet_bytes-queue_items :
    (room fuel item : ℕ) (q : Option Queue)
    → room ≤ fuel
    → (packet_bytes room item q).0 ≡ take room (queue_items fuel item q)
unfolding packet_bytes queue_items
packet_bytes-queue_items zero fuel item q h = refl
packet_bytes-queue_items (suc zero) zero item q h = absurd (omega arith)
packet_bytes-queue_items (suc zero) (suc fuel) item q h =
    elim (Bool-cases (item == queue_empty_element)) [ inl e ↦ rw e refl | inr e ↦ rw e refl ]
packet_bytes-queue_items (suc (suc room)) zero item q h = absurd (omega arith)
packet_bytes-queue_items (suc (suc room)) (suc fuel) item q h =
    elim (Bool-cases (item == queue_empty_element)) [
      | inl e ↦ rw e refl
      | inr e ↦ rw e (
          ap (◌∷◌ item) (
            packet_bytes-queue_items (suc room) fuel (queue_get_next q).0 (queue_get_next q).1
              (omega arith)))
    ]

-- the queue, with its iterator somewhere
abbrev pub Iterated : Queue → Option Queue → Type 0
Iterated q q' = (j : ℕ) × (q' ≡ some (record q { iterator = j }))

queue_get_next-Iterated : (q : Queue) → Iterated q (queue_get_next (some q)).1
unfolding queue_get_next
queue_get_next-Iterated q = elim (Bool-cases (leb q.size (q.iterator + 1))) [
  | inl e ↦ (q.iterator, rw e refl)
  | inr e ↦ (q.iterator + 1, rw e refl)
]

queue_get_first-Iterated : (q : Queue) → Iterated q (queue_get_first (some q)).1
unfolding queue_get_first
queue_get_first-Iterated q = elim (Bool-cases (queue_is_empty (some q))) [
  | inl e ↦ (q.iterator, rw e refl)
  | inr e ↦ (0, rw e refl)
]

packet_bytes-Iterated :
    (room item : ℕ) (q : Queue) (q' : Option Queue)
    → Iterated q q'
    → Iterated q (packet_bytes room item q').1
unfolding packet_bytes
packet_bytes-Iterated zero item q q' i = i
packet_bytes-Iterated (suc zero) item q q' i = elim (Bool-cases (item == queue_empty_element)) [
  | inl e ↦ rw e i
  | inr e ↦ rw e i
]
packet_bytes-Iterated (suc (suc room)) item q q' (j, s) =
    elim (Bool-cases (item == queue_empty_element)) [
      | inl e ↦ rw e (j, s)
      | inr e ↦
          rw (e, s)
            (packet_bytes-Iterated (suc room) (queue_get_next (some (record q { iterator = j }))).0
              q _ (queue_get_next-Iterated (record q { iterator = j })))
    ]

-- The data of a packet are the first bytes of the send window, 128 at most and none from the first
-- NUL byte on; the window keeps them.
pub packet_data-contents :
    (q : Queue)
    → IsRing q
    → ((packet_data (some q)).0 ≡ take max_data_per_packet (until_nul (contents q)))
      × Iterated q (packet_data (some q)).1
unfolding packet_data queue_for_each
packet_data-contents q r = (
  packet_bytes-queue_items max_data_per_packet queue_fuel (queue_get_first (some q)).0
        (queue_get_first (some q)).1 (omega arith)
      ∙ ap (take max_data_per_packet)
          (queue_for_each-contents queue_fuel q r (omega (arith, r.size_fits))),
  packet_bytes-Iterated max_data_per_packet (queue_get_first (some q)).0 q _
      (queue_get_first-Iterated q),
)
