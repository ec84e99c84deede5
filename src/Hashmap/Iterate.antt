-- ===== src/Hashmap/Iterate.antt =====
-- The iteration over the sockets of a map: `hashMapGetFirst` and `hashMapGetNext` of Hashmap.c.
use network_layer_verificati.Prelude.{
  ℕ, zero, suc, ◌+◌, ◌-◌, ◌≤◌, ◌<◌, ◌≡◌, refl, sym, ◌∙◌, ap, false, ◌⊎◌, inl, inr, Option, none,
  some, List, [], ◌∷◌, arith, length, drop, leb, length-drop,
}
use network_layer_verificati.Heap.{Heap}
use network_layer_verificati.Hashmap.{
  Pointers, HashMap, hash_map_default_size, next_id_from, step_to, hash_map_get_first,
  hash_map_get_next, get_hash_map_size,
}
use network_layer_verificati.Hashmap.Table.{Slots, IsTable}

-- the pointers of an array that are not NULL, in order
abbrev pub pointers : Pointers → List ℕ
pointers [] = []
pointers (none ∷ ks) = pointers ks
pointers (some k ∷ ks) = k ∷ pointers ks

-- The loop of HASH_MAP_FOR_EACH: the keys for which its body runs, in `fuel` rounds at most, from
-- the key at hand on.
unfoldable pub visited : ℕ → Option ℕ × HashMap → List ℕ
visited zero at = []
visited (suc fuel) (none, m) = []
visited (suc fuel) (some k, m) = k ∷ visited fuel (hash_map_get_next m)

drop_nil : (i : ℕ) → drop {A = Option ℕ} i [] ≡ []
drop_nil zero = refl
drop_nil (suc i) = refl

drop-drop : (i j n : ℕ) (ks : Pointers) → n ≡ j + i → drop n ks ≡ drop i (drop j ks)
drop-drop i zero n ks e = let same : n ≡ i = omega arith in ap (λ z. drop z ks) same
drop-drop i (suc j) zero ks e = absurd (omega arith)
drop-drop i (suc j) (suc n) [] e = sym (drop_nil i)
drop-drop i (suc j) (suc n) (k ∷ ks) e = drop-drop i j n ks (omega arith)

next_id_from-pointers :
    (n i : ℕ) (ks : Pointers)
    → length ks ≤ n
    → ((next_id_from n i ks ≡ none) × (pointers ks ≡ []))
      ⊎ ((k : ℕ) × (j : ℕ) × (p : ℕ) × (next_id_from n i ks ≡ some (j, k))
          × (j ≡ i + p)
          × (p < length ks)
          × (pointers ks ≡ k ∷ pointers (drop (suc p) ks)))
unfolding next_id_from
next_id_from-pointers zero i [] h = inl (refl, refl)
next_id_from-pointers zero i (k ∷ ks) h = absurd (omega arith)
next_id_from-pointers (suc n) i [] h = inl (refl, refl)
next_id_from-pointers (suc n) i (some k ∷ ks) h =
    inr (k, i, 0, refl, omega arith, omega arith, refl)
next_id_from-pointers (suc n) i (none ∷ ks) h =
    elim (next_id_from-pointers n (suc i) ks (omega arith)) [
      | inl (e, c) ↦ inl (e, c)
      | inr (k, j, p, e, at, b, c) ↦ inr (k, j, suc p, e, omega arith, omega arith, c)
    ]

visited_from :
    (fuel : ℕ) (m : HashMap) (i n : ℕ)
    → m.size ≡ length m.socket_id
    → n ≡ m.size - i
    → length (drop i m.socket_id) < fuel
    → visited fuel (step_to m (next_id_from n i (drop i m.socket_id)))
      ≡ pointers (drop i m.socket_id)
unfolding visited step_to hash_map_get_next get_hash_map_size
visited_from zero m i n s d h = absurd (omega arith)
visited_from (suc fuel) m i n s d h =
    elim (next_id_from-pointers n i (drop i m.socket_id)
      (omega (arith, s, length-drop i m.socket_id))) [
        | inl (e, c) ↦ rw e (sym c)
        | inr (k, j, p, e, at, b, c) ↦
            let inside : leb m.size j ≡ false = ground (arith, s, length-drop i m.socket_id) in
            let fewer : length (drop (suc j) m.socket_id) < fuel =
              omega (arith, s, length-drop i m.socket_id, length-drop (suc j) m.socket_id) in
            let rest : drop (suc j) m.socket_id ≡ drop (suc p) (drop i m.socket_id) =
              drop-drop (suc p) i (suc j) m.socket_id (omega arith) in
            rw (e, inside)
              (ap (◌∷◌ k) (
                  visited_from fuel (record m { iterator_index = suc j }) (suc j) (m.size - suc j) s
                    refl fewer
                  ∙ ap pointers rest)
                ∙ sym c)
      ]

length-Slots : (h : Heap) (ts ks : Pointers) → Slots h ts ks → length ks ≡ length ts
length-Slots h [] [] s = refl
length-Slots h [] (k ∷ ks) s = absurd s
length-Slots h (none ∷ ts) [] s = absurd s
length-Slots h (some t ∷ ts) [] s = absurd s
length-Slots h (none ∷ ts) (some k ∷ ks) s = absurd s
length-Slots h (some t ∷ ts) (none ∷ ks) s = absurd s
length-Slots h (none ∷ ts) (none ∷ ks) s = ap suc (length-Slots h ts ks s)
length-Slots h (some t ∷ ts) (some k ∷ ks) s = ap suc (length-Slots h ts ks s.2)

-- HASH_MAP_FOREACH on a table runs for each identity in it once, in the order of the slots, and
-- ends: one round more than the map has slots is enough.
pub visited-hash_map_get_first :
    (h : Heap) (m : HashMap)
    → IsTable h m
    → visited (suc hash_map_default_size) (hash_map_get_first m) ≡ pointers m.socket_id
unfolding hash_map_get_first get_hash_map_size
visited-hash_map_get_first h m t =
    let long : length m.socket_id ≡ hash_map_default_size =
      length-Slots h m.table m.socket_id t.slots ∙ t.full_length in
    visited_from (suc hash_map_default_size) m 0 m.size (t.size_eq ∙ sym long) (omega arith)
      (omega (arith, long))
