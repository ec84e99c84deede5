-- ===== src/Manager/Remove/Frame.antt =====
-- Giving the fifos of a socket up ends and changes no socket and not the map.
use network_layer_verificati.Prelude.{
  ℕ, ◌≡◌, refl, ◌∙◌, Bool-cases, inl, inr, Option, none, some, pos, eq_ℤ,
}
use network_layer_verificati.Os.{Answers}
use network_layer_verificati.Fifo.{Name}
use network_layer_verificati.World.{World, Ends}
use network_layer_verificati.World.Outcome.{ends, ends_if, ends_continue, ends_mono}
use network_layer_verificati.Socket.{destroy_socket_id}
use network_layer_verificati.Socket.Frame.{SameSocks, copy_socket_id-SameSocks}
use network_layer_verificati.Manager.Remove.{
  write_closed, tell_partner, disconnect_partner, turn_around, unlink_socket_fifos_server_side,
}

module _ (os : Answers) where
  write_closed-SameSocks :
      (name : Name) (w : World) → Ends (write_closed os name w) (λ _ w'. SameSocks w w')
  unfolding write_closed
  write_closed-SameSocks none w = ends _ _ (refl, refl)
  write_closed-SameSocks (some name) w = search (ends_if, ends)

  tell_partner-SameSocks :
      (p : ℕ) (name : Name) (w : World) → Ends (tell_partner os p name w) (λ _ w'. SameSocks w w')
  unfolding tell_partner destroy_socket_id
  tell_partner-SameSocks p name w =
      ends_continue (write_closed os name w) (λ _. destroy_socket_id os (some p))
        (write_closed-SameSocks name w) (λ _ w' same. ends _ _ same)

  disconnect_partner-SameSocks :
      (i : ℕ) (partner : Option ℕ) (w : World)
      → Ends (disconnect_partner os i partner w) (λ _ w'. SameSocks w w')
  unfolding disconnect_partner turn_around
  disconnect_partner-SameSocks i none w = ends _ _ (refl, refl)
  disconnect_partner-SameSocks i (some p) w = search tell_partner-SameSocks

  pub unlink_socket_fifos_server_side-SameSocks :
      (s k : ℕ) (w : World)
      → (w.heap.socks s).id ≡ some k
      → Ends (unlink_socket_fifos_server_side os s w) (λ _ w'. SameSocks w w')
  unfolding unlink_socket_fifos_server_side
  unlink_socket_fifos_server_side-SameSocks s k w e =
      elim (Bool-cases (eq_ℤ (w.heap.socks s).seq_of_first_send_window (pos 0))) [
        | inl z ↦ rw z (ends _ _ (refl, refl))
        | inr z ↦
            rw (z, e)
              (ends_continue _ (disconnect_partner os k) (copy_socket_id-SameSocks os k _)
                (λ partner w' same.
                  ends_mono _ (disconnect_partner-SameSocks k partner w')
                    (λ _ w'' then'. (then'.0 ∙ same.0, then'.1 ∙ same.1))))
      ]
