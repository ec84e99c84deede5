-- ===== src/Manager/UserData/Stream.antt =====
-- What becomes of the bytes that a client hands over.
use network_layer_verificati.Prelude.{
  ℕ, zero, suc, ◌+◌, ◌≡◌, refl, sym, ◌∙◌, ap, arith, true, false, Bool-cases, inl, inr, some, List,
  [], ◌∷◌, ◌++◌, length, length-append, append-nil, append_assoc, Bool, Option, ℤ, pos, eq_ℤ,
  eq_ℤ_iff, leb_ℤ,
}
use network_layer_verificati.ByteQueue.{
  Queue, default_queue_capacity, enqueue, queue_size, queue_capacity,
}
use network_layer_verificati.ByteQueue.Contents.{contents, IsRing, length-span}
use network_layer_verificati.ByteQueue.Refine.{enqueue_lem}
use network_layer_verificati.Heap.{Sock, update_self, set_sock}
use network_layer_verificati.Os.{Answers, Trace, read_file, close_file, received, byte_of}
use network_layer_verificati.Fifo.Read.{read_byte}
use network_layer_verificati.World.{World, Ends}
use network_layer_verificati.World.Outcome.{ends, ends_mono}
use network_layer_verificati.Manager.UserData.{
  take_bytes, take_byte, take_unless_full, window_is_full, enqueue_byte,
}

-- The calls of the rounds, so many at most and with room for so many bytes, in which the system
-- gives these bytes: the rounds stop at the first `read` that gives none.
abbrev pub Hands : Answers → ℤ → ℕ → ℕ → List ℕ → Trace → Trace → Type 0
Hands os fd (suc rounds) (suc room) [] t t' =
    (t' ≡ read_file fd 1 ∷ t) × (eq_ℤ (os t (read_file fd 1)) (pos 1) ≡ false)
Hands os fd (suc rounds) (suc room) (c ∷ bytes) t t' =
    (os t (read_file fd 1) ≡ pos 1)
    × (byte_of (os (read_file fd 1 ∷ t) (received 0)) ≡ c)
    × Hands os fd rounds room bytes (close_file fd ∷ read_file fd 1 ∷ t) t'
Hands os fd _ _ [] t t' = t' ≡ t
Hands os fd _ _ (c ∷ bytes) t t' = ⊥

module _ (os : Answers) (s : ℕ) (fd : ℤ) where
  -- The window has grown by the bytes that the system gave.
  abbrev pub Taken : ℕ → ℕ → Queue → Trace → World → Type 0
  Taken rounds room q t w' =
      (bytes : List ℕ) × (q' : Queue) × ((w'.heap.socks s).send_window ≡ some q')
      × IsRing q'
      × (contents q' ≡ contents q ++ bytes)
      × Hands os fd rounds room bytes t w'.trace

  size_pushed : (q q' : Queue) (c : ℕ) → contents q' ≡ contents q ++ c ∷ [] → q'.size ≡ suc q.size
  unfolding contents
  size_pushed q q' c e =
      sym (length-span q'.array q'.head q'.size)
      ∙ (ap length e
          ∙ omega (arith, length-append (contents q) (c ∷ []), length-span q.array q.head q.size))

  -- Every byte that a round reads from a client is put behind those in the send window, in order, and
  -- the rounds stop when the window is full: no byte that has been read is lost.
  pub take_bytes-Taken :
      (rounds room : ℕ) (w : World) (q : Queue)
      → (w.heap.socks s).send_window ≡ some q
      → IsRing q
      → q.size + room ≡ default_queue_capacity
      → Ends (take_bytes os rounds s fd w) (λ _ w'. Taken rounds room q w.trace w')
  unfolding take_bytes take_byte take_unless_full window_is_full enqueue_byte read_byte queue_size
      queue_capacity
  take_bytes-Taken zero room w q e r h = ends _ _ ([], q, e, r, sym (append-nil (contents q)), refl)
  take_bytes-Taken (suc rounds) zero w q e r h =
      let full : leb_ℤ (pos default_queue_capacity) (pos q.size) ≡ true = ground arith in
      rw (e, full) (ends _ _ ([], q, e, r, sym (append-nil (contents q)), refl))
  take_bytes-Taken (suc rounds) (suc room) w q e r h =
      let free : leb_ℤ (pos default_queue_capacity) (pos q.size) ≡ false = ground arith in
      elim (Bool-cases (eq_ℤ (os w.trace (read_file fd 1)) (pos 1))) [
        | inr none_read ↦
            rw (e, free, none_read)
              (ends _ _ ([], q, e, r, sym (append-nil (contents q)), (refl, none_read)))
        | inl one_read ↦
            rw (e, free, one_read)
              (elim (enqueue_lem q byte r) [
                | inr (full, _) ↦ absurd (omega arith)
                | inl (q', _, run, r', grown) ↦
                    ends_mono _
                      (take_bytes-Taken rounds room after q'
                        (ap (λ (f : Sock). f.send_window) (update_self w.heap.socks s _)
                          ∙ (ap (λ o. (enqueue o byte).1) e
                              ∙ ap (λ (p : Bool × Option Queue). p.1) run))
                        r' (omega (arith, size_pushed q q' byte grown)))
                      (λ _ w' (bytes, q'', e', r'', more, given). (
                        byte ∷ bytes,
                        q'',
                        e',
                        r'',
                        more
                            ∙ (ap (λ a. a ++ bytes) grown
                                ∙ append_assoc (contents q) (byte ∷ []) bytes),
                        ((eq_ℤ_iff (os w.trace (read_file fd 1)) (pos 1)).0 one_read, refl, given),
                      ))
              ])
      ]
    where
      byte : ℕ
      byte = byte_of (os (read_file fd 1 ∷ w.trace) (received 0))

      after : World
      after = record w {
        heap = set_sock w.heap s (record (w.heap.socks s) {
          send_window = (enqueue (w.heap.socks s).send_window byte).1;
        });
        trace = close_file fd ∷ read_file fd 1 ∷ w.trace;
      }
