-- ===== src/Socket/Bound.antt =====
-- `create_bound_socket` of socket_utils.c: the socket that it makes.
use network_layer_verificati.Prelude.{
  ℕ, suc, ◌<◌, ◌≡◌, ◌≢◌, refl, sym, ap, subst, ◌∙◌, arith, true, false, Bool-cases, ◌⊎◌, inl, inr,
  Option, none, some, pos, eq_ℤ,
}
use network_layer_verificati.SocketId.{SocketId}
use network_layer_verificati.Heap.{TcpState, Sock, Heap, set_sock, update_self, update_ne}
use network_layer_verificati.Hashmap.Frame.{changed}
use network_layer_verificati.Os.{Answers, Trace, allocated}
use network_layer_verificati.Fifo.Io.{create_socket_end_fifos}
use network_layer_verificati.World.{World, Ends, pure}
use network_layer_verificati.World.Outcome.{ends, ends_continue, ends_mono}
use network_layer_verificati.Socket.Frame.{SameHeap}
use network_layer_verificati.Socket.{
  create_new_socket, create_bound_socket, bind_to, destroy_socket, destroy_socket_id, fill_socket,
}

-- `malloc` always gives memory.
abbrev pub HasMemory : Answers → Type 0
HasMemory os = (t : Trace) → (allocated os t).0 ≡ true

-- The run has made one more socket, and has not changed the others and the map.
abbrev pub MakesSock : World → World → Type 0
MakesSock w w' =
    (socks : ℕ → Sock) × (w'.heap ≡ changed w.heap socks (suc w.heap.next_sock))
    × (w'.sockets ≡ w.sockets)
    × ((t : ℕ) → t < w.heap.next_sock → socks t ≡ w.heap.socks t)

-- The fifos for the end of a connection cannot be made.
abbrev pub NoFifos : Answers → SocketId → Type 0
NoFifos os f = (t : Trace) × (eq_ℤ (create_socket_end_fifos os (some f) t).0 (pos 0) ≡ false)

-- The result is a closed socket of the identity, or NULL where the fifos cannot be made.
abbrev pub IsBound : Answers → ℕ → ℕ → Option ℕ → SocketId → Sock → Type 0
IsBound os i s o f sock =
    ((o ≡ none) × NoFifos os f)
    ⊎ ((o ≡ some s) × (sock.id ≡ some i) × (sock.state ≡ TcpState.closed))

module _ (os : Answers) (i : ℕ) where
  destroy_socket-SameHeap :
      (s : ℕ) (w : World) → Ends (destroy_socket os s w) (λ _ w'. SameHeap w w')
  unfolding destroy_socket destroy_socket_id
  destroy_socket-SameHeap s w = go (w.heap.socks s).id refl
    where
      go :
          (o : Option ℕ)
          → (w.heap.socks s).id ≡ o
          → Ends (destroy_socket os s w) (λ _ w'. SameHeap w w')
      go none e = rw e (ends _ _ (refl, refl))
      go (some k) e = rw e (ends _ _ (refl, refl))

  abbrev BindsTo : ℕ → World → Option ℕ → World → Type 0
  BindsTo s w o w' =
      (socks : ℕ → Sock) × (w'.heap ≡ record w.heap { socks = socks })
      × (w'.sockets ≡ w.sockets)
      × ((t : ℕ) → t ≢ s → socks t ≡ w.heap.socks t)
      × IsBound os i s o (w.heap.ids i) (socks s)

  bind_to-BindsTo : (s : ℕ) (w : World) → Ends (bind_to os i (some s) w) (BindsTo s w)
  unfolding bind_to destroy_socket destroy_socket_id
  bind_to-BindsTo s w =
      elim (Bool-cases
        (eq_ℤ (create_socket_end_fifos os (some (w.heap.ids i)) w.trace).0 (pos 0))) [
          | inl e ↦ rw e (
              ends _ _ (
                _,
                refl,
                refl,
                λ t n. update_ne _ s t _ (λ q. n (sym q)) ∙ update_ne _ s t _ (λ q. n (sym q)),
                inr (
                  refl,
                  ap (λ (f : Sock). f.id) (update_self _ s _),
                  ap (λ (f : Sock). f.state) (update_self _ s _)
                      ∙ ap (λ (f : Sock). f.state) (update_self _ s _),
                ),
              ))
          | inr e ↦ rw e (
              ends_continue (destroy_socket os s failed) (λ _. pure none)
                (destroy_socket-SameHeap s failed)
                (λ _ w' (h, m). ends _ _ (
                  failed.heap.socks,
                  h,
                  m,
                  λ t n. update_ne _ s t _ (λ q. n (sym q)),
                  inl (refl, (w.trace, e)),
                )))
        ]
    where
      failed : World
      failed = record w {
        heap = set_sock w.heap s (record (w.heap.socks s) { state = TcpState.closed });
        trace = (create_socket_end_fifos os (some (w.heap.ids i)) w.trace).1;
      }

module _ (os : Answers) (memory : HasMemory os) where
  create_new_socket-MakesSock :
      (w : World)
      → Ends (create_new_socket os w) (λ o w'. (o ≡ some w.heap.next_sock) × MakesSock w w')
  unfolding create_new_socket fill_socket
  create_new_socket-MakesSock w =
      rw (memory, memory, memory, memory)
        (ends _ _ (refl, (_, refl, refl, λ t l. update_ne _ _ _ _ (omega arith))))

  -- With memory, `create_bound_socket` makes one socket, in the state CLOSED, whose identity is the
  -- one given, or gives NULL where the fifos cannot be made.
  pub create_bound_socket-IsBound :
      (i : ℕ) (w : World)
      → Ends (create_bound_socket os i w) (λ o w'.
        (socks : ℕ → Sock) × (w'.heap ≡ changed w.heap socks (suc w.heap.next_sock))
        × (w'.sockets ≡ w.sockets)
        × ((t : ℕ) → t < w.heap.next_sock → socks t ≡ w.heap.socks t)
        × IsBound os i w.heap.next_sock o (w.heap.ids i) (socks w.heap.next_sock))
  unfolding create_bound_socket
  create_bound_socket-IsBound i w =
      ends_continue (create_new_socket os w) (bind_to os i) (create_new_socket-MakesSock w)
        (λ o w₁ (is_new, (socks, h, m, keeps)). rw (is_new) (
          ends_mono _ (bind_to-BindsTo os i w.heap.next_sock w₁)
            (λ r w' (socks', h', m', keeps', b). (
              socks',
              h' ∙ ap (λ (g : Heap). record g { socks = socks' }) h,
              m' ∙ m,
              λ t l. keeps' t (omega arith) ∙ (ap (λ (g : Heap). g.socks t) h ∙ keeps t l),
              subst (λ f. IsBound os i w.heap.next_sock r f (socks' w.heap.next_sock))
                  (ap (λ (g : Heap). g.ids i) h) b,
            ))))
