-- ===== src/Hashmap/Insert.antt =====
-- `insertSocket` of Hashmap.c: a new entry of the map, or a refusal that changes nothing.
use network_layer_verificati.Prelude.{
  ℕ, suc, ◌+◌, ◌<◌, ◌≡◌, ◌≢◌, refl, sym, ◌∙◌, ap, Bool, true, false, ◌⊎◌, inl, inr, Option, none,
  some, [], ◌∷◌, arith, if◌then◌else◌, length, pos, pos_part, ℕ_discrete, eq_ℤ, ◌+ℤ◌, to_int,
  to_int-suc, ◌^◌,
}
use network_layer_verificati.SocketId.{SocketId, same_id}
use network_layer_verificati.SocketId.Equality.{IsAddressed}
use network_layer_verificati.Heap.{Heap}
use network_layer_verificati.Hashmap.{
  Pointers, HashMap, hash_map_default_size, insert_from, insert_socket, has_key,
}
use network_layer_verificati.Hashmap.Table.{
  Slots, occupied, occupied-le, Absent, Distinct, IsTable, lookup, has_key_from-lookup,
  same_id_symm, same_id_exclusive,
}

swap_tests :
    (o p q : Option ℕ) (x y : Bool)
    → (x ≡ true → y ≡ false)
    → (if x then o else (if y then p else q)) ≡ (if y then p else (if x then o else q))
swap_tests o p q true y f = rw (f refl)
swap_tests o p q false y f = refl

-- What the loop makes of two arrays that have a free slot.
record IsInserted (h : Heap) (s k : ℕ) (ts ks ts' ks' : Pointers) : Type 0 where
  run : insert_from s (some k) ts ks ≡ some (ts', ks')
  slots : Slots h ts' ks'
  more : occupied ts' ≡ suc (occupied ts)
  as_long : length ts' ≡ length ts
  absent : (i : SocketId) → same_id (h.ids k) i ≡ false → Absent h i ks → Absent h i ks'
  distinct : Distinct h ks → Absent h (h.ids k) ks → Distinct h ks'
  found :
      (i : SocketId)
      → IsAddressed i
      → lookup h i ts' ks' ≡ (if same_id (h.ids k) i then some s else lookup h i ts ks)

insert_from_lem :
    (h : Heap) (s k : ℕ) (ts ks : Pointers)
    → (h.socks s).id ≡ some k
    → IsAddressed (h.ids k)
    → Slots h ts ks
    → Absent h (h.ids k) ks
    → occupied ts < length ts
    → (ts' : Pointers) × (ks' : Pointers) × IsInserted h s k ts ks ts' ks'
unfolding insert_from lookup
insert_from_lem h s k [] ks e a sl ab room = absurd (omega arith)
insert_from_lem h s k (none ∷ ts) [] e a sl ab room = absurd sl
insert_from_lem h s k (some t ∷ ts) [] e a sl ab room = absurd sl
insert_from_lem h s k (none ∷ ts) (some j ∷ ks) e a sl ab room = absurd sl
insert_from_lem h s k (some t ∷ ts) (none ∷ ks) e a sl ab room = absurd sl
insert_from_lem h s k (none ∷ ts) (none ∷ ks) e a sl ab room = (
  some s ∷ ts,
  some k ∷ ks,
  record {
    run = refl;
    slots = (e, a, sl);
    more = refl;
    as_long = refl;
    absent = λ i n b. (n, b);
    distinct = λ d b. (b, d);
    found = λ i v. refl;
  },
)
insert_from_lem h s k (some t ∷ ts) (some j ∷ ks) e a sl ab room =
    let (ts', ks', r) = insert_from_lem h s k ts ks e a sl.2 ab.1 (omega arith) in
    (
      some t ∷ ts',
      some j ∷ ks',
      record {
        run = rw r.run;
        slots = (sl.0, sl.1, r.slots);
        more = omega (arith, r.more);
        as_long = omega (arith, r.as_long);
        absent = λ i n b. (b.0, r.absent i n b.1);
        distinct = λ d b. (
          r.absent (h.ids j) (same_id_symm (h.ids k) (h.ids j) a sl.1 ∙ ab.0) d.0,
          r.distinct d.1 b.1,
        );
        found = λ i v. rw (r.found i v) (
            swap_tests (some t) (some s) (lookup h i ts ks) (same_id (h.ids j) i)
              (same_id (h.ids k) i) (same_id_exclusive (h.ids j) (h.ids k) i sl.1 a v ab.0));
      },
    )

not_equal : (n : ℕ) → n ≢ hash_map_default_size → eq_ℤ (pos n) (pos hash_map_default_size) ≡ false
not_equal n f = ground arith

-- A full map, or one that has a socket with this identity, refuses another and stays as it was.
-- Any other table takes it: the result is a table, which maps the new identity to the socket and
-- every other one as before.
pub insert_socket_lem :
    (h : Heap) (m : HashMap) (s k : ℕ)
    → IsTable h m
    → (h.socks s).id ≡ some k
    → IsAddressed (h.ids k)
    → (((m.number_of_sockets ≡ pos hash_map_default_size)
          ⊎ ((t : ℕ) × (lookup h (h.ids k) m.table m.socket_id ≡ some t)))
        × (insert_socket h (some m) (some s) ≡ (false, some m)))
      ⊎ ((m' : HashMap) × (m.number_of_sockets ≢ pos hash_map_default_size)
          × (lookup h (h.ids k) m.table m.socket_id ≡ none)
          × (insert_socket h (some m) (some s) ≡ (true, some m'))
          × IsTable h m'
          × ((i : SocketId)
              → IsAddressed i
              → lookup h i m'.table m'.socket_id
                ≡ (if same_id (h.ids k) i then some s else lookup h i m.table m.socket_id)))
unfolding insert_socket has_key
insert_socket_lem h m s k w e a = elim (ℕ_discrete (occupied m.table) hash_map_default_size) [
  | yes full ↦ inl (inl (w.counted ∙ ap pos full), rw (w.counted, full) refl)
  | no free ↦ elim (has_key_from-lookup h k m.table m.socket_id w.slots) [
    | inr (t, p, q) ↦ inl (inr (t, q), rw (e, p) (ground arith))
    | inl (p, q, ab) ↦
        let (ts', ks', r) =
          insert_from_lem h s k m.table m.socket_id e a w.slots ab
            (omega (arith, occupied-le m.table, w.full_length)) in
        let m' : HashMap = record m {
          table = ts';
          socket_id = ks';
          number_of_sockets = to_int (m.number_of_sockets +ℤ pos 1);
        } in
        let small : occupied m.table + 1 < 2 ^ 31 =
          omega (arith, occupied-le m.table, w.full_length) in
        let not_full : m.number_of_sockets ≢ pos hash_map_default_size =
          λ z. free (ap pos_part (sym w.counted ∙ z)) in
        let counted : m'.number_of_sockets ≡ pos (occupied ts') =
          ap (λ n. to_int (n +ℤ pos 1)) w.counted
          ∙ (to_int-suc (occupied m.table) small ∙ ap pos (sym r.more)) in
        inr (
          m',
          not_full,
          q,
          rw (w.counted, not_equal (occupied m.table) free, e, p, r.run) refl,
          record {
            size_eq = w.size_eq;
            full_length = r.as_long ∙ w.full_length;
            slots = r.slots;
            counted = counted;
            distinct = r.distinct w.distinct ab;
          },
          r.found,
        )
  ]
]
