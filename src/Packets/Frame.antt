-- ===== src/Packets/Frame.antt =====
-- What the notices to clients and the data path leave alone: the state of the socket, and the map.
use network_layer_verificati.Prelude.{
  ℕ, zero, suc, ◌≡◌, refl, ◌∙◌, Bool, true, false, not, ◌&&◌, Option, none, some, if◌then◌else◌,
  List, [], ◌∷◌, ℤ, pos, ◌+ℤ◌, ◌-ℤ◌, to_int, eq_ℤ, ltb_ℤ, Bool-cases, inl, inr,
}
use network_layer_verificati.ByteQueue.{dequeue, queue_is_empty}
use network_layer_verificati.Heap.{Sock, update_self, set_sock}
use network_layer_verificati.Os.{Answers, OpenMode}
use network_layer_verificati.Fifo.{Name, failure}
use network_layer_verificati.Fifo.Io.{opened, create_socket_end_fifos}
use network_layer_verificati.Socket.{copy_socket_id}
use network_layer_verificati.World.{World, Ends, continue, pure}
use network_layer_verificati.World.Outcome.{ends, ends_if, ends_continue, ends_mono}
use network_layer_verificati.Window.{receive_byte, receive_bytes, takes_byte}
use network_layer_verificati.Socket.Frame.{
  copy_socket_id-SameSocks, SameSocks, SameConnection, SameAt, update_recv_window-SameAt,
}
use network_layer_verificati.Packets.{window_left, take_acked, receive_new_data}
use network_layer_verificati.Packets.Notify.{
  notify_connect_client, notify_accept_client, unbind_peer, grant, grant_from, write_reply,
  announce, announce_from,
}

receive_byte-SameConnection :
    (s : Sock) (seq : ℤ) (byte : ℕ) → SameConnection s (receive_byte s seq byte)
unfolding receive_byte
receive_byte-SameConnection s seq byte =
    elim (Bool-cases (takes_byte s (to_int (seq -ℤ s.seq_of_first_recv_window)))) [
      | inl e ↦ rw e (refl, refl)
      | inr e ↦ rw e (refl, refl)
    ]

pub receive_bytes-SameConnection :
    (s : Sock) (seq : ℤ) (i : ℕ) (bytes : List ℕ) → SameConnection s (receive_bytes s seq i bytes)
unfolding receive_bytes
receive_bytes-SameConnection s seq i [] = (refl, refl)
receive_bytes-SameConnection s seq i (byte ∷ bytes) =
    let one = receive_byte-SameConnection s (to_int (seq +ℤ pos i)) byte in
    let rest =
      receive_bytes-SameConnection (receive_byte s (to_int (seq +ℤ pos i)) byte) seq (suc i)
        bytes in
    (rest.0 ∙ one.0, rest.1 ∙ one.1)

pub take_acked-SameConnection : (n : ℕ) (ack : ℤ) (s : Sock) → SameConnection s (take_acked n ack s)
unfolding take_acked
take_acked-SameConnection zero ack s = (refl, refl)
take_acked-SameConnection (suc n) ack s =
    elim (Bool-cases (ltb_ℤ s.seq_of_first_send_window ack && not (queue_is_empty s.send_window))) [
      | inl e ↦ rw e (
          take_acked-SameConnection n ack (record s {
            send_window = window_left (dequeue s.send_window);
            seq_of_first_send_window = to_int (s.seq_of_first_send_window +ℤ pos 1);
          }))
      | inr e ↦ rw e (refl, refl)
    ]

module _ (os : Answers) where
  grant-SameSocks :
      (i : ℕ) (name : Name) (w : World) → Ends (grant os i name w) (λ _ w'. SameSocks w w')
  unfolding grant
  grant-SameSocks i none w = ends _ _ (refl, refl)
  grant-SameSocks i (some name) w = ends _ _ (refl, refl)

  grant_from-SameSocks :
      (i : Option ℕ) (w : World) → Ends (grant_from os i w) (λ _ w'. SameSocks w w')
  unfolding grant_from unbind_peer
  grant_from-SameSocks none w = ends _ _ (refl, refl)
  grant_from-SameSocks (some i) w = grant-SameSocks i _ _

  grant_if-SameSocks :
      (k : ℕ) (made : Bool) (w : World)
      → Ends
          ((if made then (λ w. continue (grant_from os) (copy_socket_id os k w)) else pure failure)
            w)
          (λ _ w'. SameSocks w w')
  grant_if-SameSocks k false w = ends _ _ (refl, refl)
  grant_if-SameSocks k true w =
      ends_continue (copy_socket_id os k w) (grant_from os) (copy_socket_id-SameSocks os k w)
        (λ i w' same.
          ends_mono _ (grant_from-SameSocks i w')
            (λ r w'' same'. (same'.0 ∙ same.0, same'.1 ∙ same.1)))

  pub notify_connect_client-SameSocks :
      (s k : ℕ) (w : World)
      → (w.heap.socks s).id ≡ some k
      → Ends (notify_connect_client os s w) (λ _ w'. SameSocks w w')
  unfolding notify_connect_client
  notify_connect_client-SameSocks s k w e =
      let (made, t) = create_socket_end_fifos os (some (w.heap.ids k)) w.trace in
      rw e (grant_if-SameSocks k (eq_ℤ made (pos 0)) (record w { trace = t }))

  write_reply-SameSocks :
      (reply : List ℕ) (fd : ℤ) (w : World)
      → Ends (write_reply os reply fd w) (λ _ w'. SameSocks w w')
  unfolding write_reply
  write_reply-SameSocks reply fd w = search (ends_if, ends)

  announce-SameSocks :
      (i : ℕ) (reply : List ℕ) (name : Name) (w : World)
      → Ends (announce os i reply name w) (λ _ w'. SameSocks w w')
  unfolding announce
  announce-SameSocks i reply none w = ends _ _ (refl, refl)
  announce-SameSocks i reply (some name) w =
      let (fd, t) = opened os name OpenMode.write_only_nonblock w.trace in
      ends_continue (write_reply os reply fd (record w { trace = t })) _
        (write_reply-SameSocks reply fd (record w { trace = t })) (λ r w' same. ends _ _ same)

  announce_from-SameSocks :
      (j : ℕ) (i : Option ℕ) (w : World) → Ends (announce_from os j i w) (λ _ w'. SameSocks w w')
  unfolding announce_from unbind_peer
  announce_from-SameSocks j none w = ends _ _ (refl, refl)
  announce_from-SameSocks j (some i) w = announce-SameSocks i _ _ _

  pub notify_accept_client-SameSocks :
      (s k : ℕ) (w : World)
      → (w.heap.socks s).id ≡ some k
      → Ends (notify_accept_client os s w) (λ _ w'. SameSocks w w')
  unfolding notify_accept_client
  notify_accept_client-SameSocks s k w e = rw e (
      ends_continue (copy_socket_id os k w) (announce_from os k) (copy_socket_id-SameSocks os k w)
        (λ i w' same.
          ends_mono _ (announce_from-SameSocks k i w')
            (λ r w'' same'. (same'.0 ∙ same.0, same'.1 ∙ same.1))))

  -- Data change nothing of the connection.
  pub receive_new_data-SameAt :
      (s : ℕ) (seq : ℤ) (text : List ℕ) (w : World)
      → Ends (receive_new_data os s seq text w) (λ _ w'. SameAt s w w')
  unfolding receive_new_data
  receive_new_data-SameAt s seq text w =
      ends_mono _
        (update_recv_window-SameAt os s
          (record w { heap = set_sock w.heap s (receive_bytes (w.heap.socks s) seq 0 text) }))
        (λ r w' same.
          let all = receive_bytes-SameConnection (w.heap.socks s) seq 0 text in
          (rw same.0 (simp update_self all.0), rw same.1 (simp update_self all.1)))
