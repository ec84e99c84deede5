-- ===== src/Client/Returns.antt =====
-- Calls of network.c that return, whatever the system answers.
use network_layer_verificati.Prelude.{
  ◌≡◌, refl, Bool, true, false, Option, none, some, is_some, if◌then◌else◌,
}
use network_layer_verificati.Os.{Sys}
use network_layer_verificati.Client.{Client, Run, ◌>>=◌, continue, pure, sys, unless_null}

-- The call has a result in every state.
abbrev pub Returns : {A : Type 0} → Run A → Type 0
Returns m = (c : Client) → is_some (m c) ≡ true

pub continue-is_some :
    {A B : Type 0} (f : A → Run B) (o : Option (A × Client))
    → is_some o ≡ true
    → ((a : A) → Returns (f a))
    → is_some (continue f o) ≡ true
continue-is_some f none h g = cc
continue-is_some f (some (a, c)) h g = g a c

pub bind-Returns :
    {A B : Type 0} (m : Run A) (f : A → Run B)
    → Returns m
    → ((a : A) → Returns (f a))
    → Returns (m >>= f)
bind-Returns m f h g c = continue-is_some f (m c) (h c) g

pub branch-Returns :
    {A : Type 0} (b : Bool) (m n : Run A) → Returns m → Returns n → Returns (if b then m else n)
branch-Returns true m n h g = h
branch-Returns false m n h g = g

pub pure-Returns : {A : Type 0} (a : A) → Returns (pure a)
pure-Returns a c = refl

pub sys-Returns : {A : Type 0} (m : Sys A) → Returns (sys m)
sys-Returns m c = refl

pub unless_null-Returns :
    {A B : Type 0} (o : Option A) (b : B) (f : A → Run B)
    → ((a : A) → Returns (f a))
    → Returns (unless_null o b f)
unless_null-Returns none b f g c = refl
unless_null-Returns (some a) b f g c = g a c
