-- ===== src/Packets/Acked.antt =====
-- The send window of a connection and the acknowledgements of the peer.
use network_layer_verificati.Prelude.{
  ℕ, zero, suc, ◌+◌, ◌≡◌, refl, sym, ◌∙◌, ap, false, some, List, [], ◌∷◌, drop, length, arith,
  if◌then◌else◌, ℤ, pos, ◌+ℤ◌, to_int, to_int_of_IsInt, IsInt, ltb_ℤ, Bool-cases, inl, inr,
}
use network_layer_verificati.ByteQueue.{Queue, dequeue, queue_is_empty, queue_size}
use network_layer_verificati.ByteQueue.Contents.{IsRing, contents}
use network_layer_verificati.ByteQueue.Refine.{dequeue_lem}
use network_layer_verificati.Heap.{Sock}
use network_layer_verificati.Packets.{window_left, take_acked}

-- The send window holds `bytes`, the first of which has the sequence number `first`.
pub record Sends (s : Sock) (first : ℤ) (bytes : List ℕ) : Type 0 where
  pub queue : Queue
  pub window_eq : s.send_window ≡ some queue
  pub ring : IsRing queue
  pub bytes_eq : contents queue ≡ bytes
  pub first_eq : s.seq_of_first_send_window ≡ first

-- how many of `n` bytes from `first` on are before `ack`
unfoldable pub acked_count : ℕ → ℤ → ℤ → ℕ
acked_count zero first ack = 0
acked_count (suc n) first ack =
    let rest = acked_count n (first +ℤ pos 1) ack in if ltb_ℤ first ack then suc rest else 0

plus_suc : (a : ℤ) (n : ℕ) → (a +ℤ pos 1) +ℤ pos n ≡ a +ℤ pos (suc n)
unfolding ◌+ℤ◌
plus_suc a n = ground arith

plus_zero : (a : ℤ) → a ≡ a +ℤ pos 0
unfolding ◌+ℤ◌
plus_zero a = ground arith

-- a number between two `int`s
next-IsInt : (a : ℤ) (n : ℕ) → IsInt a → IsInt (a +ℤ pos (suc n)) → IsInt (a +ℤ pos 1)
unfolding ◌+ℤ◌
next-IsInt a n i j = ground arith

not_empty : (q : Queue) (n : ℕ) → q.size ≡ n + 1 → queue_is_empty (some q) ≡ false
unfolding queue_is_empty queue_size
not_empty q n e = ground arith

popped : Sock → Sock
popped s = record s {
  send_window = window_left (dequeue s.send_window);
  seq_of_first_send_window = to_int (s.seq_of_first_send_window +ℤ pos 1);
}

-- One turn of the loop takes the first byte.
popped-Sends :
    (s : Sock) (first : ℤ) (b : ℕ) (bytes : List ℕ)
    → Sends s first (b ∷ bytes)
    → IsInt (first +ℤ pos 1)
    → (queue_is_empty s.send_window ≡ false) × Sends (popped s) (first +ℤ pos 1) bytes
unfolding popped
popped-Sends s first b bytes r i = elim (dequeue_lem r.queue r.ring) [
  | inl (x, q', e, ring', c, n) ↦ (
    rw (r.window_eq, not_empty r.queue q'.size n) refl,
    record {
      queue = q';
      window_eq = rw (r.window_eq, e) refl;
      ring = ring';
      bytes_eq = ap (drop 1) (sym c ∙ r.bytes_eq);
      first_eq = rw (r.first_eq, to_int_of_IsInt (first +ℤ pos 1) i) refl;
    },
  )
  | inr (c, e) ↦ absurd (no_byte (sym c ∙ r.bytes_eq))
]
  where
    no_byte : [] ≡ b ∷ bytes → ⊥
    no_byte e = omega (arith, ap length e)

-- The acknowledgement `ack` takes the bytes in front of it out of a send window that holds `bytes`,
-- and no more than there are; the sequence number of the first byte moves on by as many. Sequence
-- numbers are taken not to wrap around in the window.
pub take_acked-Sends :
    (s : Sock) (first ack : ℤ) (bytes : List ℕ)
    → Sends s first bytes
    → IsInt first
    → IsInt (first +ℤ pos (length bytes))
    → Sends
        (take_acked (length bytes) ack s)
        (first +ℤ pos (acked_count (length bytes) first ack))
        (drop (acked_count (length bytes) first ack) bytes)
unfolding take_acked acked_count popped
take_acked-Sends s first ack [] r i j = record {
  queue = r.queue;
  window_eq = r.window_eq;
  ring = r.ring;
  bytes_eq = r.bytes_eq;
  first_eq = r.first_eq ∙ plus_zero first;
}
take_acked-Sends s first ack (b ∷ bytes) r i j =
    let one = next-IsInt first (length bytes) i j in
    let (full, next) = popped-Sends s first b bytes r one in
    elim (Bool-cases (ltb_ℤ first ack)) [
      | inl l ↦
          let l' = ap (λ z. ltb_ℤ z ack) r.first_eq ∙ l in
          rw (l', full, l, sym (plus_suc first (acked_count (length bytes) (first +ℤ pos 1) ack)))
            (take_acked-Sends (popped s) (first +ℤ pos 1) ack bytes next one
              (rw (plus_suc first (length bytes)) j))
      | inr l ↦ let l' = ap (λ z. ltb_ℤ z ack) r.first_eq ∙ l in rw (l', l, sym (plus_zero first)) r
    ]
