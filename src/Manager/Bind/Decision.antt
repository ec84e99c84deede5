-- ===== src/Manager/Bind/Decision.antt =====
-- `handle_bind_request` of network_manager/network_manager.c: what the map of a manager is after
-- the decision on a request.
use network_layer_verificati.Prelude.{
  ℕ, suc, ◌<◌, Bool, ◌≡◌, refl, sym, ◌∙◌, ap, subst, ◌⊎◌, inl, inr, Option, none, some, is_some,
  not, if◌then◌else◌, ℤ, pos,
}
use network_layer_verificati.SocketId.{SocketId, same_id}
use network_layer_verificati.SocketId.Equality.{IsAddressed}
use network_layer_verificati.Heap.{TcpState, Sock, Heap}
use network_layer_verificati.Hashmap.{HashMap, hash_map_default_size}
use network_layer_verificati.Hashmap.Table.{IsTable, lookup}
use network_layer_verificati.Hashmap.Insert.{insert_socket_lem}
use network_layer_verificati.Hashmap.Frame.{AllBelow, changed, lookup-changed, changed-IsTable}
use network_layer_verificati.Os.{Answers}
use network_layer_verificati.Fifo.{failure}
use network_layer_verificati.World.{World, Run, Ends, ◌>>=◌, continue, pure}
use network_layer_verificati.World.Outcome.{ends, ends_continue}
use network_layer_verificati.Socket.{create_bound_socket, destroy_socket_id}
use network_layer_verificati.Socket.Bound.{HasMemory, NoFifos, IsBound, create_bound_socket-IsBound}
use network_layer_verificati.Packets.Listen.{enter_map}
use network_layer_verificati.Manager.Sockets.{can_bind_new_socket_lem, bind_new_socket, enter_bound}
use network_layer_verificati.Manager.Bind.{
  decide_bind, granted_or_not, request_granted_fifo, request_denied_fifo,
}

-- Identities and the sockets that there were are as before.
abbrev pub Kept : World → World → Type 0
Kept w w' =
    (w'.heap.ids ≡ w.heap.ids) × ((t : ℕ) → t < w.heap.next_sock → w'.heap.socks t ≡ w.heap.socks t)

-- The table has one more socket, which is new, closed and of the identity at `i`.
pub record Entered (i : ℕ) (w : World) (m : HashMap) (w' : World) : Type 0 where
  pub was_free : lookup w.heap (w.heap.ids i) m.table m.socket_id ≡ none
  pub identity : (w'.heap.socks w.heap.next_sock).id ≡ some i
  pub is_closed : (w'.heap.socks w.heap.next_sock).state ≡ TcpState.closed
  pub entered : HashMap
  pub in_use : w'.sockets ≡ some entered
  pub is_table : IsTable w'.heap entered
  pub finds :
      (j : SocketId)
      → IsAddressed j
      → lookup w'.heap j entered.table entered.socket_id ≡ (
          if same_id (w.heap.ids i) j
          then some w.heap.next_sock
          else lookup w.heap j m.table m.socket_id)

-- why an identity is refused: it is taken, the table is full, or its fifos cannot be made
abbrev pub Reason : Answers → SocketId → Heap → HashMap → Type 0
Reason os f h m =
    ((t : ℕ) × (lookup h f m.table m.socket_id ≡ some t))
    ⊎ ((m.number_of_sockets ≡ pos hash_map_default_size) ⊎ NoFifos os f)

-- The table is the one before, for a reason.
pub record Refused (os : Answers) (i : ℕ) (w : World) (m : HashMap) (w' : World) : Type 0 where
  pub same_map : w'.sockets ≡ some m
  pub still_table : IsTable w'.heap m
  pub reason : Reason os (w.heap.ids i) w.heap m

abbrev pub Decided : Answers → ℕ → World → HashMap → ℤ × ℕ → World → Type 0
Decided os i w m d w' =
    Kept w w'
    × (((d ≡ (pos 0, request_granted_fifo)) × Entered i w m w')
        ⊎ ((d.1 ≡ request_denied_fifo) × Refused os i w m w'))

module _ (os : Answers) (i : ℕ) (w : World) (m : HashMap) (t : IsTable w.heap m)
    (b : AllBelow w.heap.next_sock m.table) (a : IsAddressed (w.heap.ids i))
    (free : lookup w.heap (w.heap.ids i) m.table m.socket_id ≡ none) where
  abbrev Bound : ℤ → World → Type 0
  Bound r w' =
      Kept w w' × (((r ≡ pos 0) × Entered i w m w') ⊎ ((r ≡ failure) × Refused os i w m w'))

  enter_bound-Bound :
      (socks : ℕ → Sock) (o : Option ℕ) (w₁ : World)
      → w₁.heap ≡ changed w.heap socks (suc w.heap.next_sock)
      → w₁.sockets ≡ some m
      → ((t : ℕ) → t < w.heap.next_sock → socks t ≡ w.heap.socks t)
      → IsBound os i w.heap.next_sock o (w.heap.ids i) (socks w.heap.next_sock)
      → Ends (enter_bound os o w₁) Bound
  unfolding enter_bound enter_map
  enter_bound-Bound socks o w₁ h same keeps bound = elim bound [
    | inl (e, no_fifos) ↦ rw e (
        ends _ _ (
          kept,
          inr (refl, record { same_map = same; still_table = table₁; reason = inr (inr no_fifos) }),
        ))
    | inr (e, is_i, closed) ↦
        rw (e, same)
          (elim (insert_socket_lem w₁.heap m w.heap.next_sock i table₁ (at_new (λ f. f.id) ∙ is_i)
            addressed) [
              | inl (inl full, run) ↦ rw run (
                  ends _ _ (
                    kept,
                    inr (
                      refl,
                      record { same_map = refl; still_table = table₁; reason = inr (inl full) },
                    ),
                  ))
              | inl (inr (t', found), run) ↦ absurd (
                  none-some t'
                    (sym free ∙ (sym (same_lookup (w.heap.ids i)) ∙ found_there t' found)))
              | inr (m', _, _, run, table', finds) ↦ rw run (
                  ends _ _ (
                    kept,
                    inl (
                      refl,
                      record {
                        was_free = free;
                        identity = at_new (λ f. f.id) ∙ is_i;
                        is_closed = at_new (λ f. f.state) ∙ closed;
                        entered = m';
                        in_use = refl;
                        is_table = table';
                        finds = λ j k. finds j k ∙ as_before j;
                      },
                    ),
                  ))
            ])
  ]
    where
      at_new :
          {A : Type 0} (field : Sock → A)
          → field (w₁.heap.socks w.heap.next_sock) ≡ field (socks w.heap.next_sock)
      at_new field = ap (λ (g : Heap). field (g.socks w.heap.next_sock)) h

      same_id_at : w₁.heap.ids i ≡ w.heap.ids i
      same_id_at = ap (λ (g : Heap). g.ids i) h

      addressed : IsAddressed (w₁.heap.ids i)
      addressed = subst IsAddressed (sym same_id_at) a

      none-some : (t : ℕ) → Path (Option ℕ) none (some t) → ⊥
      none-some t e = cc

      same_lookup :
          (j : SocketId)
          → lookup w₁.heap j m.table m.socket_id ≡ lookup w.heap j m.table m.socket_id
      same_lookup j =
          ap (λ g. lookup g j m.table m.socket_id) h
          ∙ lookup-changed w.heap socks (suc w.heap.next_sock) j m.table m.socket_id

      as_before :
          (j : SocketId)
          → (if same_id (w₁.heap.ids i) j
              then some w.heap.next_sock
              else lookup w₁.heap j m.table m.socket_id)
            ≡ (if same_id (w.heap.ids i) j
                then some w.heap.next_sock
                else lookup w.heap j m.table m.socket_id)
      as_before j =
          ap
            (λ f.
              if same_id f j then some w.heap.next_sock else lookup w₁.heap j m.table m.socket_id)
            same_id_at
          ∙ ap (λ o. if same_id (w.heap.ids i) j then some w.heap.next_sock else o) (same_lookup j)

      found_there :
          (t : ℕ)
          → lookup w₁.heap (w₁.heap.ids i) m.table m.socket_id ≡ some t
          → lookup w₁.heap (w.heap.ids i) m.table m.socket_id ≡ some t
      found_there t e = subst (λ f. lookup w₁.heap f m.table m.socket_id ≡ some t) same_id_at e

      kept : Kept w w₁
      kept = (ap (λ (g : Heap). g.ids) h, λ t l. ap (λ (g : Heap). g.socks t) h ∙ keeps t l)

      table₁ : IsTable w₁.heap m
      table₁ =
          subst (λ g. IsTable g m) (sym h)
            (changed-IsTable w.heap socks (suc w.heap.next_sock) w.heap.next_sock keeps m b t)

  bind_new_socket-Bound : HasMemory os → w.sockets ≡ some m → Ends (bind_new_socket os i w) Bound
  unfolding bind_new_socket
  bind_new_socket-Bound memory s =
      ends_continue (create_bound_socket os i w) (enter_bound os)
        (create_bound_socket-IsBound os memory i w)
        (λ o w₁ (socks, h, m, keeps, bound). enter_bound-Bound socks o w₁ h (m ∙ s) keeps bound)

  granted_or_not-Decided :
      (r : ℤ) (w₁ : World) → Bound r w₁ → Ends (granted_or_not os i r w₁) (Decided os i w m)
  unfolding granted_or_not destroy_socket_id
  granted_or_not-Decided r w₁ (kept, inl (e, entered)) = rw e (ends _ _ (kept, inl (refl, entered)))
  granted_or_not-Decided r w₁ (kept, inr (e, refused)) = rw e (
      ends _ _ (
        kept,
        inr (
          refl,
          record {
            same_map = refused.same_map;
            still_table = refused.still_table;
            reason = refused.reason;
          },
        ),
      ))

-- With memory, the decision on a request ends: either the answer is 'K', and the map has one more
-- socket, which is closed and of the identity, where it had none before; or it is 'N', and the map
-- is as before, since the identity is taken, the table is full or the fifos cannot be made.
-- Identities and the sockets that there were stay as they are.
pub decide_bind-Decided :
    (os : Answers) (i : ℕ) (w : World) (m : HashMap)
    → HasMemory os
    → w.sockets ≡ some m
    → IsTable w.heap m
    → AllBelow w.heap.next_sock m.table
    → IsAddressed (w.heap.ids i)
    → Ends (decide_bind os i w) (Decided os i w m)
unfolding decide_bind
decide_bind-Decided os i w m memory s t b a =
    subst (λ o. Ends (continue decide o) (Decided os i w m))
      (sym (can_bind_new_socket_lem i m w s t a))
      (go (lookup w.heap (w.heap.ids i) m.table m.socket_id) refl)
  where
    decide : Bool → Run (ℤ × ℕ)
    decide free =
        if free
        then (do bind_result ← bind_new_socket os i; granted_or_not os i bind_result)
        else pure (pos 0, request_denied_fifo)

    go :
        (o : Option ℕ)
        → lookup w.heap (w.heap.ids i) m.table m.socket_id ≡ o
        → Ends (decide (not (is_some o)) w) (Decided os i w m)
    go (some k) e = ends _ _ (
      (refl, λ _ _. refl),
      inr (refl, record { same_map = s; still_table = t; reason = inl (k, e) }),
    )
    go none e =
        ends_continue (bind_new_socket os i w) (granted_or_not os i)
          (bind_new_socket-Bound os i w m t b a e memory s)
          (granted_or_not-Decided os i w m t b a e)
