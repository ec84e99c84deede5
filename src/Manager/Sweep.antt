-- ===== src/Manager/Sweep.antt =====
-- HASH_MAP_FOREACH of Hashmap.h, as network_manager/network_manager.c runs it over the sockets of a
-- manager: the map may change while it runs.
pub mod Rounds
use network_layer_verificati.Prelude.{ℕ, zero, suc, Option, none, some}
use network_layer_verificati.Hashmap.{
  HashMap, hash_map_default_size, hash_map_get_first, hash_map_get_next,
}
use network_layer_verificati.World.{World, Run, ◌>>=◌, continue, pure, undefined}

-- `hashMapGetFirst` and `hashMapGetNext`, on a map that is not NULL
unfoldable pub first_in : Option HashMap → Run (Option ℕ)
unfolding hash_map_get_first
first_in none w = none
first_in (some m) w = let (k, m') = hash_map_get_first m in some (k, record w { sockets = some m' })

unfoldable pub next_in : Option HashMap → Run (Option ℕ)
unfolding hash_map_get_next
next_in none w = none
next_in (some m) w = let (k, m') = hash_map_get_next m in some (k, record w { sockets = some m' })

unfoldable pub first_socket : Run (Option ℕ)
unfolding first_in
first_socket w = first_in w.sockets w

unfoldable pub next_socket : Run (Option ℕ)
unfolding next_in
next_socket w = next_in w.sockets w

-- The other rounds, unless the body has answered with a reason to leave the loop.
unfoldable pub go_on : {A : Type 0} → Run (Option A) → Option A → Run (Option A)
go_on rest (some a) = pure (some a)
go_on rest none = rest

module _ {A : Type 0} (body : ℕ → Run (Option A)) where
  -- the rounds from an identity on
  unfoldable pub sweep_from : ℕ → Option ℕ → Run (Option A)
  unfolding next_socket go_on
  sweep_from zero k = undefined
  sweep_from (suc fuel) none = pure none
  sweep_from (suc fuel) (some k) = do
    left ← body k
    go_on (do next ← next_socket; sweep_from fuel next) left

  -- One round more than the map has slots.
  unfoldable pub for_each_socket : Run (Option A)
  unfolding sweep_from first_socket
  for_each_socket = do k ← first_socket; sweep_from (suc hash_map_default_size) k
