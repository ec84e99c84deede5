-- ===== src/Packets/Moves.antt =====
-- The state machine of a connection: the moves that a packet can cause, for each handler.
use network_layer_verificati.Prelude.{
  and_left, and_right, ℕ, ◌≡◌, refl, ◌∙◌, Bool, true, false, not, ◌&&◌, Option, none, some,
  if◌then◌else◌, List, [], arith, ℤ, pos, pos_part, eq_ℤ, leb_ℤ, Bool-cases, inl, inr,
}
use network_layer_verificati.TcpPacket.{TcpPacket, has_flag, ack_flag, fin_flag, rst_flag, syn_flag}
use network_layer_verificati.Heap.{TcpState, Sock, update_self, set_sock}
use network_layer_verificati.Os.{Answers}
use network_layer_verificati.World.{World, Ends}
use network_layer_verificati.World.Outcome.{ends, ends_if, ends_continue, ends_mono}
use network_layer_verificati.Socket.Frame.{construct_packet-SameHeap}
use network_layer_verificati.Socket.Frame.{SameAt, SameConnection}
use network_layer_verificati.ByteQueue.{queue_size}
use network_layer_verificati.Packets.Notify.{notify_connect_client, notify_accept_client}
use network_layer_verificati.Packets.Frame.{
  take_acked-SameConnection, notify_connect_client-SameSocks, notify_accept_client-SameSocks,
  receive_new_data-SameAt,
}
use network_layer_verificati.Packets.Closing.{
  handle_packet_last_ack, handle_packet_fin_wait_1, handle_packet_fin_wait_2, handle_packet_closing,
  acks_fin,
}
use network_layer_verificati.Packets.{
  in_state, handle_packet_closed, handle_packet_close_wait, handle_packet_time_wait, take_acked,
  reply_to_data, receive_new_data, handle_packet_syn_sent, handle_packet_syn_received,
  handle_packet_established, is_listen,
}

pub data Moves (p : TcpPacket) : TcpState → TcpState → Type 0 where
  stays : {q : TcpState} → Moves p q q
  reset :
      {q : TcpState}
      → has_flag p.flags rst_flag ≡ true
      → is_listen q ≡ false
      → Moves p q TcpState.closed
  granted :
      has_flag p.flags syn_flag ≡ true
      → has_flag p.flags ack_flag ≡ true
      → Moves p TcpState.syn_sent TcpState.establised
  accepted : has_flag p.flags ack_flag ≡ true → Moves p TcpState.syn_received TcpState.establised
  peer_closes :
      has_flag p.flags fin_flag ≡ true
      → has_flag p.flags syn_flag ≡ false
      → Moves p TcpState.establised TcpState.close_wait
  last_ack_arrives : has_flag p.flags ack_flag ≡ true → Moves p TcpState.last_ack TcpState.closed
  fin_acked :
      has_flag p.flags ack_flag ≡ true
      → has_flag p.flags fin_flag ≡ false
      → Moves p TcpState.fin_wait_1 TcpState.fin_wait_2
  both_close : has_flag p.flags fin_flag ≡ true → Moves p TcpState.fin_wait_1 TcpState.closing
  fin_and_ack :
      has_flag p.flags fin_flag ≡ true
      → has_flag p.flags ack_flag ≡ true
      → Moves p TcpState.fin_wait_1 TcpState.time_wait
  peer_closes_last :
      has_flag p.flags fin_flag ≡ true → Moves p TcpState.fin_wait_2 TcpState.time_wait
  closing_acked : has_flag p.flags ack_flag ≡ true → Moves p TcpState.closing TcpState.time_wait

if_acked-SameConnection :
    (b : Bool) (n : ℕ) (ack : ℤ) (a : Sock) → SameConnection a (if b then take_acked n ack a else a)
if_acked-SameConnection true n ack a = take_acked-SameConnection n ack a
if_acked-SameConnection false n ack a = (refl, refl)

module _ (os : Answers) (s : ℕ) (p : TcpPacket) (w : World) where
  abbrev pub ToState : TcpState → Option (Option TcpPacket × World) → Type 0
  ToState q o = Ends o (λ _ w'. Moves p q ((w'.heap.socks s).state))

  last_ack-Moves :
      (w.heap.socks s).state ≡ TcpState.last_ack
      → ToState TcpState.last_ack (handle_packet_last_ack os s p w)
  unfolding handle_packet_last_ack
  last_ack-Moves e =
      ends_if
        (has_flag p.flags ack_flag
          && not (leb_ℤ p.ack_num (w.heap.socks s).seq_of_first_send_window))
        _ _ _
        (λ t.
          ends _ _ (simp update_self (last_ack_arrives (and_left (has_flag p.flags ack_flag) _ t))))
        (λ _. ends _ _ (rw e stays))

  closing-Moves :
      (w.heap.socks s).state ≡ TcpState.closing
      → ToState TcpState.closing (handle_packet_closing os s p w)
  unfolding handle_packet_closing acks_fin
  closing-Moves e =
      ends_if (acks_fin os (w.heap.socks s) p) _ _ _
        (λ t.
          ends _ _ (simp update_self (closing_acked (and_left (has_flag p.flags ack_flag) _ t))))
        (λ _. ends _ _ (rw e stays))

  fin_wait_1-Moves :
      (w.heap.socks s).state ≡ TcpState.fin_wait_1
      → ToState TcpState.fin_wait_1 (handle_packet_fin_wait_1 os s p w)
  unfolding handle_packet_fin_wait_1 acks_fin
  fin_wait_1-Moves e = elim (Bool-cases (acks_fin os (w.heap.socks s) p)) [
    | inl a ↦ elim (Bool-cases (has_flag p.flags fin_flag)) [
      | inl f ↦
          rw (a, f)
            (ends _ _ (simp update_self (fin_and_ack f (and_left (has_flag p.flags ack_flag) _ a))))
      | inr f ↦
          rw (a, f)
            (ends _ _ (simp update_self (fin_acked (and_left (has_flag p.flags ack_flag) _ a) f)))
    ]
    | inr a ↦ elim (Bool-cases (has_flag p.flags fin_flag)) [
      | inl f ↦ rw (a, f) (ends _ _ (simp update_self (both_close f)))
      | inr f ↦ rw (a, f) (ends _ _ (rw e stays))
    ]
  ]

  fin_wait_2-Moves :
      {k : ℕ}
      → (w.heap.socks s).state ≡ TcpState.fin_wait_2
      → (w.heap.socks s).id ≡ some k
      → ToState TcpState.fin_wait_2 (handle_packet_fin_wait_2 os s p w)
  unfolding handle_packet_fin_wait_2
  fin_wait_2-Moves {k} e i = elim (Bool-cases (has_flag p.flags fin_flag)) [
    | inl f ↦ rw f (
        ends_mono _ (construct_packet-SameHeap os s k [] ack_flag p.src_port _ (simp update_self i))
          (λ r w' same. rw same.0 (simp update_self (peer_closes_last f))))
    | inr f ↦ rw f (ends _ _ (rw e stays))
  ]

  syn_sent-Moves :
      {k : ℕ}
      → (w.heap.socks s).state ≡ TcpState.syn_sent
      → (w.heap.socks s).id ≡ some k
      → ToState TcpState.syn_sent (handle_packet_syn_sent os s p w)
  unfolding handle_packet_syn_sent
  syn_sent-Moves {k} e i =
      let guard =
        has_flag p.flags syn_flag
        && has_flag p.flags ack_flag
        && eq_ℤ p.ack_num (w.heap.socks s).seq_of_first_send_window in
      elim (Bool-cases guard) [
        | inl g ↦ rw g (
            ends_continue (notify_connect_client os s w) _
              (notify_connect_client-SameSocks os s k w i)
              (λ r w' same. elim (Bool-cases (eq_ℤ r (pos 0))) [
                | inl z ↦
                    let both =
                      and_left (has_flag p.flags syn_flag && has_flag p.flags ack_flag) _ g in
                    rw z (
                      ends _ _ (
                        simp update_self (
                          granted (and_left (has_flag p.flags syn_flag) _ both)
                            (and_right (has_flag p.flags syn_flag) _ both))))
                | inr z ↦ rw z (ends _ _ (rw (same.0, e) stays))
              ]))
        | inr g ↦ rw g (ends _ _ (rw e stays))
      ]

  syn_received-Moves :
      {k : ℕ}
      → (w.heap.socks s).state ≡ TcpState.syn_received
      → (w.heap.socks s).id ≡ some k
      → ToState TcpState.syn_received (handle_packet_syn_received os s p w)
  unfolding handle_packet_syn_received
  syn_received-Moves {k} e i =
      let guard =
        has_flag p.flags ack_flag && eq_ℤ p.ack_num (w.heap.socks s).seq_of_first_send_window in
      elim (Bool-cases guard) [
        | inl g ↦ rw g (
            ends_continue (notify_accept_client os s w) _
              (notify_accept_client-SameSocks os s k w i)
              (λ r w' same. elim (Bool-cases (eq_ℤ r (pos 0))) [
                | inl z ↦ rw z (
                    ends _ _
                      (simp update_self (accepted (and_left (has_flag p.flags ack_flag) _ g))))
                | inr z ↦ rw z (ends _ _ (rw (same.0, e) stays))
              ]))
        | inr g ↦ rw g (ends _ _ (rw e stays))
      ]

  -- a reply to data, from a socket whose connection is that of `a`
  reply_to_data-SameAt :
      {k : ℕ} (text : Option (List ℕ)) (v : World)
      → (v.heap.socks s).id ≡ some k
      → Ends (reply_to_data os s p text v) (λ _ w'. SameAt s v w')
  unfolding reply_to_data
  reply_to_data-SameAt none v i = ends _ _ (refl, refl)
  reply_to_data-SameAt {k} (some text) v i =
      ends_continue (receive_new_data os s p.seq_num text v) _
        (receive_new_data-SameAt os s p.seq_num text v)
        (λ r w' same.
          ends_mono _ (construct_packet-SameHeap os s k [] ack_flag p.src_port w' (same.1 ∙ i))
            (λ r w'' frame. rw frame.0 same))

  established-Moves :
      {k : ℕ}
      → (w.heap.socks s).state ≡ TcpState.establised
      → (w.heap.socks s).id ≡ some k
      → ToState TcpState.establised (handle_packet_established os s p w)
  unfolding handle_packet_established
  established-Moves {k} e i = elim (Bool-cases (has_flag p.flags syn_flag)) [
    | inl y ↦ rw y (ends _ _ (rw e stays))
    | inr y ↦ elim (Bool-cases (has_flag p.flags fin_flag)) [
      | inl f ↦ rw (y, f) (ends _ _ (simp update_self (peer_closes f y)))
      | inr f ↦
          let sock = w.heap.socks s in
          let acked : Sock =
            if has_flag p.flags ack_flag
            then take_acked (pos_part (queue_size sock.send_window)) p.ack_num sock
            else sock in
          let same : SameConnection sock acked =
            if_acked-SameConnection (has_flag p.flags ack_flag)
              (pos_part (queue_size sock.send_window)) p.ack_num sock in
          let v : World = record w { heap = set_sock w.heap s acked } in
          rw (y, f)
            (ends_mono _ (reply_to_data-SameAt {k = k} p.payload v (simp update_self (same.1 ∙ i)))
              (λ r w' at. rw (at.0) (simp update_self (rw (same.0, e) stays))))
    ]
  ]

  pub in_state-Moves :
      {k : ℕ} (q : TcpState) (src_ip : List ℕ)
      → is_listen q ≡ false
      → (w.heap.socks s).state ≡ q
      → (w.heap.socks s).id ≡ some k
      → ToState q (in_state os q s p src_ip w)
  unfolding in_state handle_packet_closed handle_packet_close_wait handle_packet_time_wait
  in_state-Moves TcpState.closed src_ip n e i = ends _ _ (rw e stays)
  in_state-Moves TcpState.listen src_ip n e i = absurd (ground arith)
  in_state-Moves TcpState.syn_sent src_ip n e i = syn_sent-Moves e i
  in_state-Moves TcpState.syn_received src_ip n e i = syn_received-Moves e i
  in_state-Moves TcpState.establised src_ip n e i = established-Moves e i
  in_state-Moves TcpState.close_wait src_ip n e i = ends _ _ (rw e stays)
  in_state-Moves TcpState.last_ack src_ip n e i = last_ack-Moves e
  in_state-Moves TcpState.fin_wait_1 src_ip n e i = fin_wait_1-Moves e
  in_state-Moves TcpState.fin_wait_2 src_ip n e i = fin_wait_2-Moves e i
  in_state-Moves TcpState.closing src_ip n e i = closing-Moves e
  in_state-Moves TcpState.time_wait src_ip n e i = ends _ _ (rw e stays)
