-- ===== src/Os/Waiting.antt =====
-- Code that calls the system in loops that may wait for it. A loop that has not ended within its
-- fuel has no result: `none`.
use network_layer_verificati.Prelude.{Option, none, some}
use network_layer_verificati.Os.{Sys, Trace}

abbrev pub Wait : Type 0 → Type 0
Wait A = Trace → Option (A × Trace)

abbrev pub continue : {A B : Type 0} → (A → Wait B) → Option (A × Trace) → Option (B × Trace)
continue f none = none
continue f (some (a, t)) = f a t

infixl 5 ◌>>=◌
abbrev pub ◌>>=◌ : {A B : Type 0} → Wait A → (A → Wait B) → Wait B
(m >>= f) t = continue f (m t)

abbrev pub pure : {A : Type 0} → A → Wait A
pure a t = some (a, t)

abbrev pub sys : {A : Type 0} → Sys A → Wait A
sys m t = some (m t)

-- a loop that has used its fuel up
abbrev pub stuck : {A : Type 0} → Wait A
stuck t = none
