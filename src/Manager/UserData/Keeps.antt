-- ===== src/Manager/UserData/Keeps.antt =====
-- Taking a client's data ends and leaves the state of the connection alone.
use network_layer_verificati.Prelude.{
  ℕ, zero, suc, refl, Bool, true, false, Option, none, some, ℤ, pos,
}
use network_layer_verificati.Heap.{update_self}
use network_layer_verificati.Os.{Answers, OpenMode, close_file, call}
use network_layer_verificati.Fifo.Io.{opened}
use network_layer_verificati.Fifo.{Name}
use network_layer_verificati.Fifo.Read.{read_byte}
use network_layer_verificati.World.{Run, ◌>>=◌, pure, sys, waits}
use network_layer_verificati.World.Outcome.{ends}
use network_layer_verificati.Manager.Send.{max_data_per_packet}
use network_layer_verificati.ByteQueue.{Queue}
use network_layer_verificati.Fifo.{get_socket_send_fifo_name}
use network_layer_verificati.Socket.{id_at}
use network_layer_verificati.Manager.UserData.{
  enqueue_byte, take_byte, take_unless_full, window_is_full, take_bytes, take_opened, take_from,
  take_queue, take_user_data,
}
use network_layer_verificati.Manager.Keeps.{
  Keeps, Numbers, Any, bind-Keeps, branch-Keeps, pure-Keeps, sys-Keeps,
}

module _ (os : Answers) (s k : ℕ) (x : Numbers) (y : ℕ) where
  enqueue_byte-Keeps : (c : ℕ) → Keeps s k x y y Any (enqueue_byte os s c)
  unfolding enqueue_byte
  enqueue_byte-Keeps c w e = ends _ _ (simp update_self (tt, refl, e))

  read_byte-Keeps : (fd : ℤ) → Keeps s k x y y Any (waits (read_byte os fd))
  unfolding read_byte
  read_byte-Keeps fd w e = ends _ _ (tt, refl, e)

  take_byte-Keeps :
      (rest : Run Unit) (fd : ℤ) (read : ℤ × ℕ)
      → Keeps s k x y y Any rest
      → Keeps s k x y y Any (take_byte os rest s fd read)
  unfolding take_byte
  take_byte-Keeps rest fd (read_length, c) h =
      branch-Keeps _ _ _
        (bind-Keeps (enqueue_byte os s c) (λ _. sys (call os (close_file fd)) >>= (λ _. rest))
          (enqueue_byte-Keeps c)
          (λ _ _. bind-Keeps (sys (call os (close_file fd))) (λ _. rest) (sys-Keeps _) (λ _ _. h)))
        (pure-Keeps tt tt)

  take_unless_full-Keeps :
      (rest : Run Unit) (fd : ℤ) (full : Bool)
      → Keeps s k x y y Any rest
      → Keeps s k x y y Any (take_unless_full os rest s fd full)
  unfolding take_unless_full
  take_unless_full-Keeps rest fd true h = pure-Keeps tt tt
  take_unless_full-Keeps rest fd false h =
      bind-Keeps (waits (read_byte os fd)) (take_byte os rest s fd) (read_byte-Keeps fd)
        (λ read _. take_byte-Keeps rest fd read h)

  window_is_full-Keeps : Keeps s k x y y Any (window_is_full os s)
  unfolding window_is_full
  window_is_full-Keeps w e = ends _ _ (tt, refl, e)

  take_bytes-Keeps : (room : ℕ) (fd : ℤ) → Keeps s k x y y Any (take_bytes os room s fd)
  unfolding take_bytes
  take_bytes-Keeps zero fd = pure-Keeps tt tt
  take_bytes-Keeps (suc room) fd =
      bind-Keeps (window_is_full os s) (take_unless_full os (take_bytes os room s fd) s fd)
        window_is_full-Keeps (λ full _. take_unless_full-Keeps _ fd full (take_bytes-Keeps room fd))

  take_opened-Keeps : (fd : ℤ) → Keeps s k x y y Any (take_opened os s fd)
  unfolding take_opened
  take_opened-Keeps fd = branch-Keeps _ _ _ (pure-Keeps _ tt) (
      bind-Keeps (take_bytes os max_data_per_packet s fd)
        (λ _. sys (call os (close_file fd)) >>= (λ _. pure (pos 0)))
        (take_bytes-Keeps max_data_per_packet fd) (λ _ _. sys_then fd))
    where
      sys_then :
          (fd : ℤ) → Keeps s k x y y Any (sys (call os (close_file fd)) >>= (λ _. pure (pos 0)))
      sys_then fd w e = ends _ _ (tt, refl, e)

  take_from-Keeps : (name : Name) → Keeps s k x y y Any (take_from os s name)
  unfolding take_from
  take_from-Keeps none w e = pure-Keeps (pos 0) tt w e
  take_from-Keeps (some name) w e =
      bind-Keeps (sys (opened os name OpenMode.read_only_nonblock)) (take_opened os s) (sys-Keeps _)
        (λ fd _. take_opened-Keeps fd) w e

  take_queue-Keeps : (q : Option Queue) → Keeps s k x y y Any (take_queue os s q)
  unfolding take_queue
  take_queue-Keeps none w e = pure-Keeps (pos 0) tt w e
  take_queue-Keeps (some q) w e =
      bind-Keeps (sys (get_socket_send_fifo_name os (id_at w.heap (w.heap.socks s).id)))
        (take_from os s) (sys-Keeps _) (λ name _. take_from-Keeps name) w e

  -- An established socket takes in what its client sends, up to 128 bytes and the room that there
  -- is in its window, and ends, whatever the system answers; its state and its identity stay.
  pub take_user_data-Keeps : Keeps s k x y y Any (take_user_data os s)
  unfolding take_user_data
  take_user_data-Keeps w e = take_queue-Keeps ((w.heap.socks s).send_window) w e
