-- ===== src/Hashmap/Table.antt =====
-- The invariant of a table of Hashmap.c, and lookup by the contents of a key.
use mathlib.Core.Option.{some-injective}
use network_layer_verificati.Prelude.{
  ℕ, zero, suc, ◌≤◌, ◌≡◌, refl, sym, ◌∙◌, ap, Bool, true, false, Option, none, some, [], ◌∷◌, arith,
  if◌then◌else◌, length, length-replicate, ℤ, pos, eq_ℤ, replicate, subst, ℕ_discrete, Bool-cases,
  ◌⊎◌, inl, inr,
}
use network_layer_verificati.SocketId.{SocketId, same_id}
use network_layer_verificati.SocketId.Equality.{IsAddressed, same_id_refl, same_id_iff}
use network_layer_verificati.Heap.{Heap}
use network_layer_verificati.Hashmap.{
  Pointers, HashMap, hash_map_default_size, create_hash_map, compare_keys, has_key, has_key_from,
  get_from, get_socket, get_hash_map_number_of_sockets,
}

-- The two arrays agree: a slot is free in both, or holds a socket and the pointer to its identity.
abbrev pub Slots : Heap → Pointers → Pointers → Type 0
Slots h [] [] = Unit
Slots h (none ∷ ts) (none ∷ ks) = Slots h ts ks
Slots h (some t ∷ ts) (some k ∷ ks) =
    ((h.socks t).id ≡ some k) × IsAddressed (h.ids k) × Slots h ts ks
Slots h _ _ = ⊥

abbrev pub occupied : Pointers → ℕ
occupied [] = 0
occupied (none ∷ ts) = occupied ts
occupied (some t ∷ ts) = suc (occupied ts)

pub occupied-le : (ts : Pointers) → occupied ts ≤ length ts
occupied-le [] = omega arith
occupied-le (none ∷ ts) = omega (arith, occupied-le ts)
occupied-le (some t ∷ ts) = omega (arith, occupied-le ts)

-- no key of the array has these contents
abbrev pub Absent : Heap → SocketId → Pointers → Type 0
Absent h i [] = Unit
Absent h i (none ∷ ks) = Absent h i ks
Absent h i (some k ∷ ks) = (same_id (h.ids k) i ≡ false) × Absent h i ks

abbrev pub Distinct : Heap → Pointers → Type 0
Distinct h [] = Unit
Distinct h (none ∷ ks) = Distinct h ks
Distinct h (some k ∷ ks) = Absent h (h.ids k) ks × Distinct h ks

pub record IsTable (h : Heap) (m : HashMap) : Type 0 where
  pub size_eq : m.size ≡ hash_map_default_size
  pub full_length : length m.table ≡ hash_map_default_size
  pub slots : Slots h m.table m.socket_id
  pub counted : m.number_of_sockets ≡ pos (occupied m.table)
  pub distinct : Distinct h m.socket_id

-- The socket whose identity has these contents: the table as a map from identities.
unfoldable pub lookup : Heap → SocketId → Pointers → Pointers → Option ℕ
lookup h i (some t ∷ ts) (some k ∷ ks) = if same_id (h.ids k) i then some t else lookup h i ts ks
lookup h i (t ∷ ts) (k ∷ ks) = lookup h i ts ks
lookup h i _ _ = none

pub compare_keys_lem : (h : Heap) (p q : ℕ) → compare_keys h p q ≡ same_id (h.ids p) (h.ids q)
unfolding compare_keys
compare_keys_lem h p q = elim (ℕ_discrete p q) [
  | yes e ↦ rw e (ground (arith, same_id_refl (h.ids q)))
  | no n ↦ ground arith
]

pub same_id_symm : (a b : SocketId) → IsAddressed a → IsAddressed b → same_id a b ≡ same_id b a
same_id_symm a b h k =
    go (same_id a b) (same_id b a) (λ e. (same_id_iff b a k h).1 (sym ((same_id_iff a b h k).0 e)))
      (λ e. (same_id_iff a b h k).1 (sym ((same_id_iff b a k h).0 e)))
  where
    go : (x y : Bool) → (x ≡ true → y ≡ true) → (y ≡ true → x ≡ true) → x ≡ y
    go true y f g = sym (f refl)
    go false true f g = g refl
    go false false f g = refl

-- Of two keys that differ, one at most has given contents.
pub same_id_exclusive :
    (a b i : SocketId)
    → IsAddressed a
    → IsAddressed b
    → IsAddressed i
    → same_id a b ≡ false
    → same_id a i ≡ true
    → same_id b i ≡ false
same_id_exclusive a b i ha hb hi n e =
    ap (same_id b) (sym ((same_id_iff a i ha hi).0 e)) ∙ (same_id_symm b a hb ha ∙ n)

pub has_key_from-lookup :
    (h : Heap) (k : ℕ) (ts ks : Pointers)
    → Slots h ts ks
    → ((has_key_from h ks k ≡ false) × (lookup h (h.ids k) ts ks ≡ none) × Absent h (h.ids k) ks)
      ⊎ ((t : ℕ) × (has_key_from h ks k ≡ true) × (lookup h (h.ids k) ts ks ≡ some t))
unfolding has_key_from lookup
has_key_from-lookup h k [] [] s = inl (refl, refl, tt)
has_key_from-lookup h k [] (x ∷ ks) s = absurd s
has_key_from-lookup h k (none ∷ ts) [] s = absurd s
has_key_from-lookup h k (some t ∷ ts) [] s = absurd s
has_key_from-lookup h k (none ∷ ts) (some j ∷ ks) s = absurd s
has_key_from-lookup h k (some t ∷ ts) (none ∷ ks) s = absurd s
has_key_from-lookup h k (none ∷ ts) (none ∷ ks) s = has_key_from-lookup h k ts ks s
has_key_from-lookup h k (some t ∷ ts) (some j ∷ ks) s =
    elim (Bool-cases (same_id (h.ids j) (h.ids k))) [
      | inl e ↦ inr (t, rw (compare_keys_lem h j k, e), rw e)
      | inr e ↦ elim (has_key_from-lookup h k ts ks s.2) [
        | inl (p, q, r) ↦ inl (rw (compare_keys_lem h j k, e) p, rw e q, (e, r))
        | inr (u, p, q) ↦ inr (u, rw (compare_keys_lem h j k, e) p, rw e q)
      ]
    ]

get_from-lookup :
    (h : Heap) (k : ℕ) (ts ks : Pointers)
    → IsAddressed (h.ids k)
    → Slots h ts ks
    → get_from h k ts ks ≡ lookup h (h.ids k) ts ks
unfolding get_from lookup
get_from-lookup h k [] [] a s = refl
get_from-lookup h k [] (x ∷ ks) a s = absurd s
get_from-lookup h k (none ∷ ts) [] a s = absurd s
get_from-lookup h k (some t ∷ ts) [] a s = absurd s
get_from-lookup h k (none ∷ ts) (some j ∷ ks) a s = absurd s
get_from-lookup h k (some t ∷ ts) (none ∷ ks) a s = absurd s
get_from-lookup h k (none ∷ ts) (none ∷ ks) a s = get_from-lookup h k ts ks a s
get_from-lookup h k (some t ∷ ts) (some j ∷ ks) a s = rw (
  compare_keys_lem h k j,
  same_id_symm (h.ids k) (h.ids j) a s.1,
  get_from-lookup h k ts ks a s.2,
)

lookup_empty :
    (h : Heap) (i : SocketId) (ts ks : Pointers) → occupied ts ≡ 0 → lookup h i ts ks ≡ none
unfolding lookup
lookup_empty h i [] ks e = refl
lookup_empty h i (none ∷ ts) [] e = refl
lookup_empty h i (none ∷ ts) (none ∷ ks) e = lookup_empty h i ts ks e
lookup_empty h i (none ∷ ts) (some k ∷ ks) e = lookup_empty h i ts ks e
lookup_empty h i (some t ∷ ts) ks e = absurd (omega arith)

-- In a table, `getSocket` finds the socket whose identity has the ports and addresses of the key,
-- and NULL if there is none.
pub get_socket-lookup :
    (h : Heap) (m : HashMap) (k : ℕ)
    → IsTable h m
    → IsAddressed (h.ids k)
    → get_socket h (some m) (some k) ≡ lookup h (h.ids k) m.table m.socket_id
unfolding get_socket has_key get_hash_map_number_of_sockets
get_socket-lookup h m k w a = elim (has_key_from-lookup h k m.table m.socket_id w.slots) [
  | inl (p, q, _) ↦ rw (p, q) (none_either m.number_of_sockets)
  | inr (t, p, q) ↦
      rw (w.counted, p, get_from-lookup h k m.table m.socket_id a w.slots)
        (found (occupied m.table) (lookup h (h.ids k) m.table m.socket_id)
          (lookup_empty h (h.ids k) m.table m.socket_id))
]
  where
    none_either : (n : ℤ) → ◌≡◌ {A = Option ℕ} (if eq_ℤ n (pos 0) then none else none) none
    none_either n = ground arith

    found :
        (n : ℕ) (r : Option ℕ) → (n ≡ 0 → r ≡ none) → (if eq_ℤ (pos n) (pos 0) then none else r) ≡ r
    found zero r f = sym (f refl)
    found (suc n) r f = ground arith

pub free-Slots :
    (h : Heap) (n : ℕ)
    → Slots h (replicate n none) (replicate n none)
      × (occupied (replicate n none) ≡ 0)
      × Distinct h (replicate n none)
unfolding replicate
free-Slots h zero = (tt, refl, tt)
free-Slots h (suc n) = free-Slots h n

-- A new table is empty.
pub create_hash_map-IsTable :
    (h : Heap) {m : HashMap}
    → create_hash_map true ≡ some m
    → IsTable h m × ((i : SocketId) → lookup h i m.table m.socket_id ≡ none)
unfolding create_hash_map
create_hash_map-IsTable h e =
    subst (λ m. IsTable h m × ((i : SocketId) → lookup h i m.table m.socket_id ≡ none))
      (some-injective _ _ e)
      (let (slots, free, distinct) = free-Slots h hash_map_default_size in
        (
          record {
            size_eq = refl;
            full_length = length-replicate hash_map_default_size _;
            slots = slots;
            counted = ap pos (sym free);
            distinct = distinct;
          },
          λ i.
              lookup_empty h i (replicate hash_map_default_size none)
                (replicate hash_map_default_size none) free,
        ))
