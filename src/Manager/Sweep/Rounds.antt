-- ===== src/Manager/Sweep/Rounds.antt =====
-- The loop over the sockets of a manager ends, whatever its body does with them.
use network_layer_verificati.Prelude.{
  ℕ, zero, suc, ◌+◌, ◌-◌, ◌≤◌, ◌<◌, ◌≡◌, refl, sym, subst, false, leb, Option, none, some, [], ◌∷◌,
  arith, drop,
}
use network_layer_verificati.Hashmap.{
  Pointers, HashMap, hash_map_default_size, next_id_from, step_to, hash_map_get_first,
  hash_map_get_next, get_hash_map_size,
}
use network_layer_verificati.World.{World, Run, Ends, ◌>>=◌}
use network_layer_verificati.World.Outcome.{ends, ends_continue}
use network_layer_verificati.Manager.Sweep.{
  first_in, next_in, go_on, first_socket, next_socket, sweep_from, for_each_socket,
}

next_id_from-bounds :
    (n i : ℕ) (ks : Pointers) (j k : ℕ) → next_id_from n i ks ≡ some (j, k) → (i ≤ j) × (j < i + n)
unfolding next_id_from
next_id_from-bounds zero i ks j k e = cc
next_id_from-bounds (suc n) i [] j k e = cc
next_id_from-bounds (suc n) i (none ∷ ks) j k e =
    let (a, b) = next_id_from-bounds n (suc i) ks j k e in (omega arith, omega arith)
next_id_from-bounds (suc n) i (some k' ∷ ks) j k e = (ground arith, ground arith)

-- The map is there, with its place at `i`.
abbrev pub At : ℕ → World → Type 0
At i w =
    (m : HashMap) × (w.sockets ≡ some m) × (m.iterator_index ≡ i) × (m.size ≡ hash_map_default_size)

-- An identity is at hand at a place inside of the map, with fuel for the places behind it.
abbrev Ready : ℕ → Option ℕ → World → Type 0
Ready fuel none w = 1 ≤ fuel
Ready fuel (some k) w =
    (i : ℕ) × At i w × (i < hash_map_default_size) × (hash_map_default_size - i < fuel)

-- A change of the place of a map alone.
abbrev pub move_to : ℕ → World → HashMap → World
move_to j w m = record w { sockets = some (record m { iterator_index = j }) }

-- The world is as it was but for the place of its map.
abbrev Moved : World → World → Type 0
Moved w w' = (m : HashMap) × (j : ℕ) × (w.sockets ≡ some m) × (w' ≡ move_to j w m)

-- what the search for the next identity gives, from place `i` on
step_to-Ready :
    (fuel n i j₀ : ℕ) (ks : Pointers) (w : World) (m : HashMap)
    → w.sockets ≡ some m
    → m.size ≡ hash_map_default_size
    → i + n ≤ hash_map_default_size
    → 1 ≤ fuel
    → hash_map_default_size < fuel + i
    → let r = step_to (record m { iterator_index = j₀ }) (next_id_from n i ks) in
      Ready fuel r.0 (record w { sockets = some r.1 }) × Moved w (record w { sockets = some r.1 })
unfolding step_to
step_to-Ready fuel n i j₀ ks w m s z b one h = by_result (next_id_from n i ks) refl
  where
    by_result :
        (r : Option (ℕ × ℕ))
        → next_id_from n i ks ≡ r
        → let p = step_to (record m { iterator_index = j₀ }) r in
          Ready fuel p.0 (record w { sockets = some p.1 })
          × Moved w (record w { sockets = some p.1 })
    by_result none e = (one, (m, j₀, s, refl))
    by_result (some (j, k)) e =
        let (low, high) = next_id_from-bounds n i ks j k e in
        (
          (j, (record m { iterator_index = j }, refl, refl, z), omega arith, omega arith),
          (m, j, s, refl),
        )

first_in-Ready :
    (w : World) (m : HashMap)
    → w.sockets ≡ some m
    → m.size ≡ hash_map_default_size
    → Ends (first_in (some m) w) (λ k w'. Ready (suc hash_map_default_size) k w' × Moved w w')
unfolding first_in hash_map_get_first get_hash_map_size
first_in-Ready w m s z = ends _ _ (
    step_to-Ready (suc hash_map_default_size) m.size 0 m.iterator_index m.socket_id w m s z
      (omega (arith, z)) (omega arith) (omega arith))

next_in-Ready :
    (fuel : ℕ) (w : World) (m : HashMap)
    → w.sockets ≡ some m
    → m.size ≡ hash_map_default_size
    → m.iterator_index < hash_map_default_size
    → hash_map_default_size - m.iterator_index < suc fuel
    → Ends (next_in (some m) w) (λ k w'. Ready fuel k w' × Moved w w')
unfolding next_in hash_map_get_next get_hash_map_size
next_in-Ready fuel w m s z below enough =
    let inside : leb m.size m.iterator_index ≡ false = ground (arith, z) in
    rw inside (
      ends _ _ (
        step_to-Ready fuel (m.size - suc m.iterator_index) (suc m.iterator_index)
          (suc m.iterator_index) (drop (suc m.iterator_index) m.socket_id) w m s z
          (omega (arith, z)) (omega arith) (omega arith)))

first_socket-Ready :
    (w : World) (m : HashMap)
    → w.sockets ≡ some m
    → m.size ≡ hash_map_default_size
    → Ends (first_socket w) (λ k w'. Ready (suc hash_map_default_size) k w' × Moved w w')
unfolding first_socket
first_socket-Ready w m s z =
    subst (λ o. Ends (first_in o w) (λ k w'. Ready (suc hash_map_default_size) k w' × Moved w w'))
      (sym s) (first_in-Ready w m s z)

next_socket-Ready :
    (fuel i : ℕ) (w : World)
    → At i w
    → i < hash_map_default_size
    → hash_map_default_size - i < suc fuel
    → Ends (next_socket w) (λ k w'. Ready fuel k w' × Moved w w')
unfolding next_socket
next_socket-Ready fuel i w (m, s, at, z) below enough =
    subst (λ o. Ends (next_in o w) (λ k w'. Ready fuel k w' × Moved w w')) (sym s)
      (next_in-Ready fuel w m s z (omega (arith, at)) (omega (arith, at)))

module _ {A : Type 0} (body : ℕ → Run (Option A)) (Inv : World → Type 0)
    (moves : (w : World) (m : HashMap) (j : ℕ) → w.sockets ≡ some m → Inv w → Inv (move_to j w m))
    (step : (k i : ℕ) (w : World)
      → Inv w
      → At i w
      → Ends (body k w) (λ _ w'. Inv w' × At i w')) where
  Moved-Inv : (w w' : World) → Inv w → Moved w w' → Inv w'
  Moved-Inv w w' inv (m, j, s, e) = subst Inv (sym e) (moves w m j s inv)

  go_on-Ends :
      (fuel i : ℕ) (left : Option A) (w : World)
      → ((k : Option ℕ) (w : World)
          → Inv w
          → Ready fuel k w
          → Ends (sweep_from body fuel k w) (λ _ w'. Inv w'))
      → Inv w
      → At i w
      → i < hash_map_default_size
      → hash_map_default_size - i < suc fuel
      → Ends (go_on (next_socket >>= sweep_from body fuel) left w) (λ _ w'. Inv w')
  unfolding go_on
  go_on-Ends fuel i (some a) w rest inv at below enough = ends _ _ inv
  go_on-Ends fuel i none w rest inv at below enough =
      ends_continue (next_socket w) (sweep_from body fuel)
        (next_socket-Ready fuel i w at below enough)
        (λ k w' (ready, moved). rest k w' (Moved-Inv w w' inv moved) ready)

  sweep_from-Ends :
      (fuel : ℕ) (k : Option ℕ) (w : World)
      → Inv w
      → Ready fuel k w
      → Ends (sweep_from body fuel k w) (λ _ w'. Inv w')
  unfolding sweep_from
  sweep_from-Ends zero none w inv ready = absurd (omega arith)
  sweep_from-Ends zero (some k) w inv (i, _, _, enough) = absurd (omega arith)
  sweep_from-Ends (suc fuel) none w inv ready = ends _ _ inv
  sweep_from-Ends (suc fuel) (some k) w inv (i, at, below, enough) =
      ends_continue (body k w) (go_on (next_socket >>= sweep_from body fuel)) (step k i w inv at)
        (λ left w' (inv', at').
          go_on-Ends fuel i left w' (sweep_from-Ends fuel) inv' at' below enough)

  -- A loop over the sockets of a manager ends if its body does, wherever some invariant holds, and
  -- keeps the invariant and the place of the map. The body may change the sockets and the slots of
  -- the map, and leave the loop.
  pub for_each_socket-Ends :
      (w : World) (m : HashMap)
      → Inv w
      → w.sockets ≡ some m
      → m.size ≡ hash_map_default_size
      → Ends (for_each_socket body w) (λ _ w'. Inv w')
  unfolding for_each_socket
  for_each_socket-Ends w m inv s z =
      ends_continue (first_socket w) (sweep_from body (suc hash_map_default_size))
        (first_socket-Ready w m s z)
        (λ k w' (ready, moved).
          sweep_from-Ends (suc hash_map_default_size) k w' (Moved-Inv w w' inv moved) ready)
