-- ===== src/Hashmap/Remove.antt =====
-- `hashmapRemove` of Hashmap.c: the entry of a key is taken out of the map.
use network_layer_verificati.Prelude.{
  ℕ, suc, ◌+◌, ◌<◌, ◌^◌, ◌≡◌, refl, sym, ◌∙◌, ap, Bool, true, false, ◌⊎◌, inl, inr, Bool-cases,
  Option, none, some, [], ◌∷◌, arith, if◌then◌else◌, length, pos, ◌-ℤ◌, to_int, to_int_pred, subst,
}
use network_layer_verificati.SocketId.{SocketId, same_id}
use network_layer_verificati.SocketId.Equality.{IsAddressed, same_id_iff}
use network_layer_verificati.Heap.{Heap}
use network_layer_verificati.Hashmap.{
  Pointers, HashMap, remove_from, hashmap_remove, removed, key_matches,
}
use network_layer_verificati.Hashmap.Table.{
  Slots, occupied, occupied-le, Absent, Distinct, IsTable, lookup, compare_keys_lem, same_id_symm,
  same_id_exclusive,
}

lookup-Absent :
    (h : Heap) (i : SocketId) (ts ks : Pointers) → Absent h i ks → lookup h i ts ks ≡ none
unfolding lookup
lookup-Absent h i [] ks a = refl
lookup-Absent h i (t ∷ ts) [] a = no_key t
  where
    no_key : (t : Option ℕ) → lookup h i (t ∷ ts) [] ≡ none
    no_key none = refl
    no_key (some t) = refl
lookup-Absent h i (none ∷ ts) (none ∷ ks) a = lookup-Absent h i ts ks a
lookup-Absent h i (some t ∷ ts) (none ∷ ks) a = lookup-Absent h i ts ks a
lookup-Absent h i (none ∷ ts) (some k ∷ ks) a = lookup-Absent h i ts ks a.1
lookup-Absent h i (some t ∷ ts) (some k ∷ ks) a = rw (a.0, lookup-Absent h i ts ks a.1)

-- What the loop makes of two arrays that have the key.
record IsRemoved (h : Heap) (k : ℕ) (ts ks ts' ks' : Pointers) : Type 0 where
  run : remove_from h k ts ks ≡ some (ts', ks')
  slots : Slots h ts' ks'
  fewer : suc (occupied ts') ≡ occupied ts
  as_long : length ts' ≡ length ts
  absent : (i : SocketId) → Absent h i ks → Absent h i ks'
  distinct : Distinct h ks'
  gone :
      (i : SocketId)
      → IsAddressed i
      → lookup h i ts' ks' ≡ (if same_id (h.ids k) i then none else lookup h i ts ks)

-- a test decided twice the same way
same_tests :
    (h : Heap) (k j : ℕ) (i : SocketId) (o p : Option ℕ)
    → IsAddressed (h.ids k)
    → IsAddressed (h.ids j)
    → IsAddressed i
    → same_id (h.ids k) (h.ids j) ≡ true
    → (same_id (h.ids k) i ≡ true → p ≡ none)
    → p ≡ (if same_id (h.ids k) i then none else if same_id (h.ids j) i then o else p)
same_tests h k j i o p a b v e f =
    rw (sym ((same_id_iff (h.ids k) (h.ids j) a b).0 e)) (by_test (same_id (h.ids k) i) f)
  where
    by_test : (x : Bool) → (x ≡ true → p ≡ none) → p ≡ (if x then none else if x then o else p)
    by_test true f = f refl
    by_test false f = refl

swap_tests :
    (o p : Option ℕ) (x y : Bool)
    → (x ≡ true → y ≡ false)
    → (if x then o else (if y then none else p)) ≡ (if y then none else (if x then o else p))
swap_tests o p true y f = rw (f refl)
swap_tests o p false y f = refl

remove_from_lem :
    (h : Heap) (k : ℕ) (ts ks : Pointers)
    → IsAddressed (h.ids k)
    → Slots h ts ks
    → Distinct h ks
    → ((remove_from h k ts ks ≡ none) × (lookup h (h.ids k) ts ks ≡ none))
      ⊎ ((t : ℕ) × (ts' : Pointers) × (ks' : Pointers) × (lookup h (h.ids k) ts ks ≡ some t)
          × IsRemoved h k ts ks ts' ks')
unfolding remove_from lookup key_matches
remove_from_lem h k [] ks a s d = inl (refl, refl)
remove_from_lem h k (none ∷ ts) [] a s d = absurd s
remove_from_lem h k (some t ∷ ts) [] a s d = absurd s
remove_from_lem h k (none ∷ ts) (some j ∷ ks) a s d = absurd s
remove_from_lem h k (some t ∷ ts) (none ∷ ks) a s d = absurd s
remove_from_lem h k (none ∷ ts) (none ∷ ks) a s d = elim (remove_from_lem h k ts ks a s d) [
  | inl (p, q) ↦ inl (rw p, q)
  | inr (t, ts', ks', q, r) ↦ inr (
    t,
    none ∷ ts',
    none ∷ ks',
    q,
    record {
      run = rw r.run;
      slots = r.slots;
      fewer = r.fewer;
      as_long = omega (arith, r.as_long);
      absent = r.absent;
      distinct = r.distinct;
      gone = r.gone;
    },
  )
]
remove_from_lem h k (some t ∷ ts) (some j ∷ ks) a s d =
    elim (Bool-cases (same_id (h.ids k) (h.ids j))) [
      | inl e ↦ inr (
        t,
        none ∷ ts,
        none ∷ ks,
        rw (same_id_symm (h.ids j) (h.ids k) s.1 a, e) refl,
        record {
          run = rw (s.0, compare_keys_lem h k j, e);
          slots = s.2;
          fewer = refl;
          as_long = refl;
          absent = λ i b. b.1;
          distinct = d.1;
          gone = λ i v. same_tests h k j i (some t) (lookup h i ts ks) a s.1 v e (λ z.
              lookup-Absent h i ts ks (
                subst (λ x. Absent h x ks)
                  (sym ((same_id_iff (h.ids k) (h.ids j) a s.1).0 e)
                    ∙ (same_id_iff (h.ids k) i a v).0 z)
                  d.0));
        },
      )
      | inr e ↦ elim (remove_from_lem h k ts ks a s.2 d.1) [
        | inl (p, q) ↦ inl (
          rw (s.0, compare_keys_lem h k j, e, p),
          rw (same_id_symm (h.ids j) (h.ids k) s.1 a, e) q,
        )
        | inr (u, ts', ks', q, r) ↦ inr (
          u,
          some t ∷ ts',
          some j ∷ ks',
          rw (same_id_symm (h.ids j) (h.ids k) s.1 a, e) q,
          record {
            run = rw (s.0, compare_keys_lem h k j, e, r.run);
            slots = (s.0, s.1, r.slots);
            fewer = omega (arith, r.fewer);
            as_long = omega (arith, r.as_long);
            absent = λ i b. (b.0, r.absent i b.1);
            distinct = (r.absent (h.ids j) d.0, r.distinct);
            gone = λ i v. rw (r.gone i v) (
                swap_tests (some t) (lookup h i ts ks) (same_id (h.ids j) i) (same_id (h.ids k) i) (
                  same_id_exclusive (h.ids j) (h.ids k) i s.1 a v
                    (same_id_symm (h.ids j) (h.ids k) s.1 a ∙ e)));
          },
        )
      ]
    ]

-- In a table, `hashmapRemove` of a key that no socket has changes nothing and returns false.
-- Otherwise it returns true and leaves a table without that identity, the others as before.
pub hashmap_remove_lem :
    (h : Heap) (m : HashMap) (k : ℕ)
    → IsTable h m
    → IsAddressed (h.ids k)
    → ((lookup h (h.ids k) m.table m.socket_id ≡ none)
        × (hashmap_remove h (some m) (some k) ≡ (false, some m)))
      ⊎ ((t : ℕ) × (m' : HashMap) × (lookup h (h.ids k) m.table m.socket_id ≡ some t)
          × (hashmap_remove h (some m) (some k) ≡ (true, some m'))
          × IsTable h m'
          × ((i : SocketId)
              → IsAddressed i
              → lookup h i m'.table m'.socket_id
                ≡ (if same_id (h.ids k) i then none else lookup h i m.table m.socket_id)))
unfolding hashmap_remove removed
hashmap_remove_lem h m k w a = elim (remove_from_lem h k m.table m.socket_id a w.slots w.distinct) [
  | inl (p, q) ↦ inl (q, rw p)
  | inr (t, ts', ks', q, r) ↦
      let m' : HashMap = record m {
        table = ts';
        socket_id = ks';
        number_of_sockets = to_int (m.number_of_sockets -ℤ pos 1);
      } in
      let small : occupied ts' + 1 < 2 ^ 31 =
        omega (arith, occupied-le m.table, w.full_length, r.fewer) in
      let counted : m'.number_of_sockets ≡ pos (occupied ts') =
        ap (λ n. to_int (n -ℤ pos 1)) (w.counted ∙ ap pos (sym r.fewer))
        ∙ to_int_pred (occupied ts') small in
      inr (
        t,
        m',
        q,
        rw r.run,
        record {
          size_eq = w.size_eq;
          full_length = r.as_long ∙ w.full_length;
          slots = r.slots;
          counted = counted;
          distinct = r.distinct;
        },
        r.gone,
      )
]
