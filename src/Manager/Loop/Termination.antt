-- ===== src/Manager/Loop/Termination.antt =====
-- The end of a manager: network_manager/network_manager.c.
use mathlib.Core.Option.{some-injective}
use network_layer_verificati.Prelude.{
  ℕ, suc, ◌≡◌, refl, sym, ◌∙◌, subst, true, Bool-cases, inl, inr, Option, none, some, [], ◌∷◌, pos,
  eq_ℤ,
}
use network_layer_verificati.Heap.{Heap, Sock}
use network_layer_verificati.Hashmap.{
  Pointers, HashMap, hash_map_default_size, compare_keys, has_key, get_from, get_socket,
  get_hash_map_number_of_sockets,
}
use network_layer_verificati.Os.{Answers, read_file}
use network_layer_verificati.Fifo.{Name}
use network_layer_verificati.World.{World, Ends, ◌>>=◌, continue}
use network_layer_verificati.World.Outcome.{ends, ends_if, ends_continue, ends_mono}
use network_layer_verificati.Socket.Frame.{SameSocks}
use network_layer_verificati.Manager.{find_socket}
use network_layer_verificati.Manager.Closing.{write_end}
use network_layer_verificati.Manager.Remove.{unlink_socket_fifos_server_side}
use network_layer_verificati.Manager.Remove.Frame.{unlink_socket_fifos_server_side-SameSocks}
use network_layer_verificati.Manager.Fifos.{should_terminate_manager}
use network_layer_verificati.Manager.Sweep.{for_each_socket}
use network_layer_verificati.Manager.Sweep.Rounds.{At, move_to, for_each_socket-Ends}
use network_layer_verificati.Manager.Loop.{
  end_reader, part_with, end_client, end_clients, terminate_manager, turn_if, next_turn,
  manager_turn, manager_turns,
}

-- Every socket of an array has an identity.
abbrev pub Identified : (ℕ → Sock) → Pointers → Type 0
Identified socks [] = Unit
Identified socks (none ∷ ts) = Identified socks ts
Identified socks (some t ∷ ts) = ((k : ℕ) × ((socks t).id ≡ some k)) × Identified socks ts

get_from-Identified :
    (h : Heap) (key s : ℕ) (ts ks : Pointers)
    → get_from h key ts ks ≡ some s
    → Identified h.socks ts
    → (k : ℕ) × ((h.socks s).id ≡ some k)
unfolding get_from
get_from-Identified h key s [] ks e i = cc
get_from-Identified h key s (none ∷ ts) [] e i = cc
get_from-Identified h key s (some t ∷ ts) [] e i = cc
get_from-Identified h key s (none ∷ ts) (k ∷ ks) e i = get_from-Identified h key s ts ks e i
get_from-Identified h key s (some t ∷ ts) (none ∷ ks) e (_, i) =
    get_from-Identified h key s ts ks e i
get_from-Identified h key s (some t ∷ ts) (some k ∷ ks) e (j, i) =
    elim (Bool-cases (compare_keys h key k)) [
      | inl y ↦ subst (λ z. (k : ℕ) × ((h.socks z).id ≡ some k)) (some-injective _ _ (rw y at e)) j
      | inr y ↦ get_from-Identified h key s ts ks (rw y at e) i
    ]

get_socket-Identified :
    (h : Heap) (m : HashMap) (key s : ℕ)
    → get_socket h (some m) (some key) ≡ some s
    → Identified h.socks m.table
    → (k : ℕ) × ((h.socks s).id ≡ some k)
unfolding get_socket get_hash_map_number_of_sockets
get_socket-Identified h m key s e i = elim (Bool-cases (eq_ℤ m.number_of_sockets (pos 0))) [
  | inl y ↦ absurd (cc (rw y at e))
  | inr y ↦ elim (Bool-cases (has_key h (some m) (some key))) [
    | inl z ↦ get_from-Identified h key s m.table m.socket_id (rw (y, z) at e) i
    | inr z ↦ absurd (cc (rw (y, z) at e))
  ]
]

-- Every socket in the table of a manager has an identity.
abbrev pub AllIdentified : World → Type 0
AllIdentified w = (m : HashMap) → w.sockets ≡ some m → Identified w.heap.socks m.table

SameSocks-AllIdentified : (w w' : World) → SameSocks w w' → AllIdentified w → AllIdentified w'
SameSocks-AllIdentified w w' (h, s) a m e =
    subst (λ f. Identified f m.table) (sym h) (a m (sym s ∙ e))

SameSocks-At : (i : ℕ) (w w' : World) → SameSocks w w' → At i w → At i w'
SameSocks-At i w w' (_, s) (m, e, at, z) = (m, s ∙ e, at, z)

move_to-AllIdentified :
    (w : World) (m : HashMap) (j : ℕ)
    → w.sockets ≡ some m
    → AllIdentified w
    → AllIdentified (move_to j w m)
move_to-AllIdentified w m j s a m' e =
    subst (λ x. Identified w.heap.socks x.table) (some-injective _ _ e) (a m s)

find_socket_in :
    (key s : ℕ) (w : World)
    → AllIdentified w
    → get_socket w.heap w.sockets (some key) ≡ some s
    → (k : ℕ) × ((w.heap.socks s).id ≡ some k)
unfolding get_socket
find_socket_in key s w a e = by_map w.sockets refl e
  where
    by_map :
        (o : Option HashMap)
        → w.sockets ≡ o
        → get_socket w.heap o (some key) ≡ some s
        → (k : ℕ) × ((w.heap.socks s).id ≡ some k)
    by_map none z f = absurd (cc f)
    by_map (some m) z f = get_socket-Identified w.heap m key s f (a m z)

module _ (os : Answers) where
  end_reader-SameSocks :
      (name : Name) (w : World) → Ends (end_reader os name w) (λ _ w'. SameSocks w w')
  unfolding end_reader write_end
  end_reader-SameSocks none w = ends _ _ (refl, refl)
  end_reader-SameSocks (some name) w = search (ends_if, ends)

  part_with-SameSocks :
      (o : Option ℕ) (w : World)
      → ((s : ℕ) → o ≡ some s → (k : ℕ) × ((w.heap.socks s).id ≡ some k))
      → Ends (part_with os o w) (λ _ w'. SameSocks w w')
  unfolding part_with
  part_with-SameSocks none w h = ends _ _ (refl, refl)
  part_with-SameSocks (some s) w h =
      ends_continue (unlink_socket_fifos_server_side os s w) _
        (unlink_socket_fifos_server_side-SameSocks os s (h s refl).0 w (h s refl).1)
        (λ _ w' same. ends _ _ same)

  end_client-SameSocks :
      (i : ℕ) (w : World) → AllIdentified w → Ends (end_client os i w) (λ _ w'. SameSocks w w')
  unfolding end_client
  end_client-SameSocks i w a =
      ends_continue (end_reader os _ _) (λ _. find_socket i >>= part_with os)
        (end_reader-SameSocks _ _)
        (λ _ w' same.
          ends_mono _
            (part_with-SameSocks (get_socket w'.heap w'.sockets (some i)) w'
              (λ s e. find_socket_in i s w' (SameSocks-AllIdentified w w' same a) e))
            (λ _ w'' then'. (then'.0 ∙ same.0, then'.1 ∙ same.1)))

  -- the invariant of the loop over the clients: the sockets are as they were
  abbrev Parting : World → World → Type 0
  Parting w₀ w = AllIdentified w × (w.heap.socks ≡ w₀.heap.socks)

  end_clients-Ends :
      (w : World) (m : HashMap)
      → w.sockets ≡ some m
      → m.size ≡ hash_map_default_size
      → AllIdentified w
      → Ends (end_clients os (some m) w) (λ r w'. (r ≡ pos 0) × (w'.heap.socks ≡ w.heap.socks))
  unfolding end_clients
  end_clients-Ends w m s z a =
      ends_continue (for_each_socket (end_client os) w) _
        (for_each_socket-Ends (end_client os) (Parting w)
          (λ w' m' j e (b, same). (move_to-AllIdentified w' m' j e b, same))
          (λ k i w' (b, same) at. ends_mono _ (end_client-SameSocks k w' b) (λ _ w'' kept. (
            (SameSocks-AllIdentified w' w'' kept b, kept.0 ∙ same),
            SameSocks-At i w' w'' kept at,
          )))
          w m (a, refl) s z)
        (λ _ w' (_, same). ends _ _ (refl, same))

  -- Whatever the system answers, a manager with a map ends the work of its clients with 0, and no
  -- socket changes.
  pub terminate_manager-Ends :
      (w : World) (m : HashMap)
      → w.sockets ≡ some m
      → m.size ≡ hash_map_default_size
      → AllIdentified w
      → Ends (terminate_manager os w) (λ r w'. (r ≡ pos 0) × (w'.heap.socks ≡ w.heap.socks))
  unfolding terminate_manager
  terminate_manager-Ends w m s z a =
      subst (λ o. Ends (end_clients os o w) (λ r w'. (r ≡ pos 0) × (w'.heap.socks ≡ w.heap.socks)))
        (sym s) (end_clients-Ends w m s z a)

  turn_if-Ends :
      (fuel : ℕ) (w : World) (m : HashMap)
      → w.sockets ≡ some m
      → m.size ≡ hash_map_default_size
      → AllIdentified w
      → Ends (turn_if os fuel true w) (λ r w'. (r ≡ some (pos 0)) × (w'.heap.socks ≡ w.heap.socks))
  unfolding turn_if
  turn_if-Ends fuel w m s z a =
      ends_continue (terminate_manager os w) _ (terminate_manager-Ends w m s z a)
        (λ _ w' (_, same). ends _ _ (refl, same))

  -- The byte that asks for the end is read.
  should_terminate_manager_lem :
      (fuel : ℕ) (w : World)
      → os w.trace (read_file w.fds.terminate_fifo_fd 1) ≡ pos 1
      → should_terminate_manager os (suc fuel) w
        ≡ some (true, record w { trace = read_file w.fds.terminate_fifo_fd 1 ∷ w.trace })
  unfolding should_terminate_manager
  should_terminate_manager_lem fuel w e = rw e refl

  manager_turn-Ends :
      (fuel : ℕ) (w : World) (m : HashMap)
      → w.sockets ≡ some m
      → m.size ≡ hash_map_default_size
      → AllIdentified w
      → os w.trace (read_file w.fds.terminate_fifo_fd 1) ≡ pos 1
      → Ends
          (manager_turn os (suc fuel) w)
          (λ r w'. (r ≡ some (pos 0)) × (w'.heap.socks ≡ w.heap.socks))
  unfolding manager_turn
  manager_turn-Ends fuel w m s z a e =
      subst
        (λ o.
          Ends (continue (turn_if os (suc fuel)) o)
            (λ r w'. (r ≡ some (pos 0)) × (w'.heap.socks ≡ w.heap.socks)))
        (sym (should_terminate_manager_lem fuel w e))
        (turn_if-Ends (suc fuel)
          (record w { trace = read_file w.fds.terminate_fifo_fd 1 ∷ w.trace }) m s z a)

  -- Once somebody has asked for the end, the loop of a running manager returns 0 in the same turn,
  -- whatever else the system answers, and no socket changes any more.
  pub manager_turns-Ends :
      (fuel turns : ℕ) (w : World) (m : HashMap)
      → w.sockets ≡ some m
      → m.size ≡ hash_map_default_size
      → AllIdentified w
      → os w.trace (read_file w.fds.terminate_fifo_fd 1) ≡ pos 1
      → Ends
          (manager_turns os (suc fuel) (suc turns) w)
          (λ r w'. (r ≡ pos 0) × (w'.heap.socks ≡ w.heap.socks))
  unfolding manager_turns
  manager_turns-Ends fuel turns w m s z a e =
      ends_continue (manager_turn os (suc fuel) w)
        (next_turn os (suc fuel) (manager_turns os (suc fuel) turns))
        (manager_turn-Ends fuel w m s z a e)
        (λ r w' (zero_result, same).
          subst
            (λ o.
              Ends (next_turn os (suc fuel) (manager_turns os (suc fuel) turns) o w')
                (λ r w'. (r ≡ pos 0) × (w'.heap.socks ≡ w.heap.socks)))
            (sym zero_result) (unfold next_turn in ends _ _ (refl, same)))
