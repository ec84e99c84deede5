-- ===== src/Window/Stream.antt =====
-- What a receive window holds: bytes of the peer's stream, each at its place.
use network_layer_verificati.Prelude.{
  ℕ, zero, suc, ◌+◌, ◌-◌, ◌≤◌, ◌<◌, ◌≡◌, refl, sym, ◌∙◌, Bool, true, false, List, [], ◌∷◌, ◌++◌,
  length, get_or, drop, take, replicate, arith, length-set, length-drop, length-append,
  length-replicate, get_or-drop, get_or-append_left, get_or-append_right, get_or-take,
  get_or-set_self, get_or-set_ne, get_or-replicate, length-take, ℤ, pos, ◌+ℤ◌, ◌-ℤ◌, negsuc, to_int,
  IsInt, to_int-IsInt, ltb, ℕ_discrete, Bool-cases, inl, inr,
}
use network_layer_verificati.Heap.{Sock}
use network_layer_verificati.Window.{
  max_window_size, takes_byte, put_byte, receive_byte, receive_bytes, valid_from, valid_recvs,
  drop_received,
}

-- The stream gives the byte at each sequence number.
abbrev pub Stream : Type 0
Stream = ℤ → ℕ

-- The data of a packet are the bytes of the stream from `seq` + `i` on.
abbrev pub CarriesFrom : Stream → ℤ → ℕ → List ℕ → Type 0
CarriesFrom stream seq i [] = Unit
CarriesFrom stream seq i (byte ∷ bytes) =
    (byte ≡ stream (to_int (seq +ℤ pos i))) × CarriesFrom stream seq (suc i) bytes

pub record IsReceiver (stream : Stream) (s : Sock) : Type 0 where
  pub max_eq : s.max_recv_window_size ≡ max_window_size
  pub window_length : length s.recv_window ≡ max_window_size
  pub valid_length : length s.recv_window_isvalid ≡ max_window_size
  pub first_int : IsInt s.seq_of_first_recv_window
  pub agrees :
      (p : ℕ)
      → p < max_window_size
      → get_or s.recv_window_isvalid p false ≡ true
      → get_or s.recv_window p 0 ≡ stream (to_int (s.seq_of_first_recv_window +ℤ pos p))

-- Sequence numbers wrap around together.
place_of_seq :
    (seq first : ℤ) (p : ℕ)
    → IsInt seq
    → IsInt first
    → to_int (seq -ℤ first) ≡ pos p
    → to_int (first +ℤ pos p) ≡ seq
unfolding to_int ◌+ℤ◌ ◌-ℤ◌
place_of_seq seq first p a b e = ground arith

advance_seq :
    (first : ℤ) (n p : ℕ)
    → IsInt first
    → n ≤ max_window_size
    → p < max_window_size
    → to_int (to_int (first +ℤ pos n) +ℤ pos p) ≡ to_int (first +ℤ pos (p + n))
unfolding to_int ◌+ℤ◌
advance_seq first n p a b c = ground arith

takes_byte-pos :
    (s : Sock) (place : ℤ)
    → takes_byte s place ≡ true
    → (p : ℕ) × (place ≡ pos p) × (p < s.max_recv_window_size)
unfolding takes_byte
takes_byte-pos s (pos p) e = (p, refl, ground arith)
takes_byte-pos s (negsuc p) e = absurd (ground arith)

put_byte-IsReceiver :
    (stream : Stream) (s : Sock) (seq : ℤ) (byte p : ℕ)
    → IsReceiver stream s
    → IsInt seq
    → byte ≡ stream seq
    → to_int (seq -ℤ s.seq_of_first_recv_window) ≡ pos p
    → p < max_window_size
    → IsReceiver stream (put_byte s p byte)
put_byte-IsReceiver stream s seq byte p r i e at h = record {
  max_eq = r.max_eq;
  window_length = length-set s.recv_window p byte ∙ r.window_length;
  valid_length = length-set s.recv_window_isvalid p true ∙ r.valid_length;
  first_int = r.first_int;
  agrees = λ q below valid. elim (ℕ_discrete p q) [
    | yes same ↦
        rw
          (
            sym same,
            get_or-set_self s.recv_window p byte 0 (omega (arith, r.window_length)),
            place_of_seq seq s.seq_of_first_recv_window p i r.first_int at,
            e,
          )
          refl
    | no other ↦
        get_or-set_ne s.recv_window p q byte 0 other
        ∙ r.agrees q below (sym (get_or-set_ne s.recv_window_isvalid p q true false other) ∙ valid)
  ];
}

receive_byte-IsReceiver :
    (stream : Stream) (s : Sock) (seq : ℤ) (byte : ℕ)
    → IsReceiver stream s
    → IsInt seq
    → byte ≡ stream seq
    → IsReceiver stream (receive_byte s seq byte)
unfolding receive_byte
receive_byte-IsReceiver stream s seq byte r i e =
    elim (Bool-cases (takes_byte s (to_int (seq -ℤ s.seq_of_first_recv_window)))) [
      | inl t ↦
          let (p, at, below) = takes_byte-pos s _ t in
          rw (t, at) (put_byte-IsReceiver stream s seq byte p r i e at (omega (arith, r.max_eq)))
      | inr f ↦ rw f r
    ]

-- The data of a packet of the stream go into the window and leave it one of the stream: no place
-- has another byte than the stream has there, whatever order packets come in and overlap.
pub receive_bytes-IsReceiver :
    (stream : Stream) (s : Sock) (seq : ℤ) (i : ℕ) (bytes : List ℕ)
    → IsReceiver stream s
    → CarriesFrom stream seq i bytes
    → IsReceiver stream (receive_bytes s seq i bytes)
unfolding receive_bytes
receive_bytes-IsReceiver stream s seq i [] r c = r
receive_bytes-IsReceiver stream s seq i (byte ∷ bytes) r c =
    receive_bytes-IsReceiver stream (receive_byte s (to_int (seq +ℤ pos i)) byte) seq (suc i) bytes
      (receive_byte-IsReceiver stream s (to_int (seq +ℤ pos i)) byte r (to_int-IsInt (seq +ℤ pos i))
        c.0)
      c.1

drop_agrees :
    (stream : Stream) (s : Sock) (n p : ℕ)
    → IsReceiver stream s
    → n ≤ max_window_size
    → p < max_window_size
    → get_or (drop n s.recv_window_isvalid ++ replicate n false) p false ≡ true
    → get_or (drop n s.recv_window ++ drop (s.max_recv_window_size - n) s.recv_window) p 0
      ≡ stream (to_int (to_int (s.seq_of_first_recv_window +ℤ pos n) +ℤ pos p))
drop_agrees stream s n p r fits below valid = elim (Bool-cases (ltb p (max_window_size - n))) [
  | inl e ↦
      let inside : p < length (drop n s.recv_window_isvalid) =
        ground (arith, length-drop n s.recv_window_isvalid, r.valid_length) in
      let inside' : p < length (drop n s.recv_window) =
        ground (arith, length-drop n s.recv_window, r.window_length) in
      rw
        (
          get_or-append_left (drop n s.recv_window)
              (drop (s.max_recv_window_size - n) s.recv_window) p 0 inside',
          get_or-drop n p s.recv_window 0,
          advance_seq s.seq_of_first_recv_window n p r.first_int fits below,
        )
        (r.agrees (p + n) (ground arith) (
          sym (
            get_or-append_left (drop n s.recv_window_isvalid) (replicate n false) p false inside
            ∙ get_or-drop n p s.recv_window_isvalid false)
          ∙ valid))
  | inr e ↦
      let outside : length (drop n s.recv_window_isvalid) ≤ p =
        ground (arith, length-drop n s.recv_window_isvalid, r.valid_length) in
      absurd (
        false_not_true (
          sym (
            get_or-append_right (drop n s.recv_window_isvalid) (replicate n false) p false outside
            ∙ get_or-replicate n (p - length (drop n s.recv_window_isvalid)) false)
          ∙ valid))
]
  where
    false_not_true : false ≡ true → ⊥
    false_not_true e = ground (arith, e)

-- What the user has been given leaves the window, and the rest stays at its place of the stream.
pub drop_received-IsReceiver :
    (stream : Stream) (s : Sock) (n : ℕ)
    → IsReceiver stream s
    → n ≤ max_window_size
    → IsReceiver stream (drop_received n s)
unfolding drop_received
drop_received-IsReceiver stream s n r fits = record {
  max_eq = r.max_eq;
  window_length = omega (
    arith,
    r.window_length,
    r.max_eq,
    fits,
    length-drop n s.recv_window,
    length-drop (s.max_recv_window_size - n) s.recv_window,
    length-append (drop n s.recv_window) (drop (s.max_recv_window_size - n) s.recv_window),
  );
  valid_length = omega (
    arith,
    r.valid_length,
    fits,
    length-drop n s.recv_window_isvalid,
    length-replicate n false,
    length-append (drop n s.recv_window_isvalid) (replicate n false),
  );
  first_int = to_int-IsInt (s.seq_of_first_recv_window +ℤ pos n);
  agrees = λ p below valid. drop_agrees stream s n p r fits below valid;
}

valid_from_lem :
    (n : ℕ) (valid : List Bool)
    → valid_from n valid ≤ n
      × ((p : ℕ) → p < valid_from n valid → get_or valid p false ≡ true)
      × (valid_from n valid < n → get_or valid (valid_from n valid) false ≡ false)
unfolding valid_from
valid_from_lem zero valid = (omega arith, λ p h. absurd (omega arith), λ h. absurd (omega arith))
valid_from_lem (suc n) [] = (omega arith, λ p h. absurd (omega arith), λ h. refl)
valid_from_lem (suc n) (false ∷ valid) = (omega arith, λ p h. absurd (omega arith), λ h. refl)
valid_from_lem (suc n) (true ∷ valid) =
    let (short, all, next) = valid_from_lem n valid in
    (omega arith, first all, λ h. next (omega arith))
  where
    first :
        ((p : ℕ) → p < valid_from n valid → get_or valid p false ≡ true)
        → (p : ℕ) → p < suc (valid_from n valid)
        → get_or (true ∷ valid) p false ≡ true
    first all zero h = refl
    first all (suc p) h = all p (omega arith)

-- What the user is given is the next stretch of the stream, as long as the window has no hole:
-- every byte in front of the first free place, which may be the end.
pub valid_recvs_lem :
    (stream : Stream) (s : Sock)
    → IsReceiver stream s
    → (length (take (valid_recvs s) s.recv_window) ≡ valid_recvs s)
      × (valid_recvs s ≤ max_window_size)
      × ((p : ℕ)
          → p < valid_recvs s
          → get_or (take (valid_recvs s) s.recv_window) p 0
            ≡ stream (to_int (s.seq_of_first_recv_window +ℤ pos p)))
      × (valid_recvs s < max_window_size
          → get_or s.recv_window_isvalid (valid_recvs s) false ≡ false)
unfolding valid_recvs
valid_recvs_lem stream s r =
    let (short, all, next) = valid_from_lem s.max_recv_window_size s.recv_window_isvalid in
    let n : ℕ = valid_from s.max_recv_window_size s.recv_window_isvalid in
    (
      omega (arith, length-take n s.recv_window, short, r.max_eq, r.window_length),
      omega (arith, short, r.max_eq),
      λ p h.
          get_or-take n p s.recv_window 0 h ∙ r.agrees p (omega (arith, short, r.max_eq)) (all p h),
      λ h. next (omega (arith, r.max_eq)),
    )
