-- ===== src/World/Outcome.antt =====
-- How a run that is made of parts ends.
use network_layer_verificati.Prelude.{
  Bool, true, false, Option, none, some, if◌then◌else◌, ◌≡◌, refl,
}
use network_layer_verificati.World.{World, Run, continue, Ends}

module _ {A : Type 0} where
  pub ends_continue :
      {B : Type 0} {P : A → World → Type 0} {Q : B → World → Type 0} (o : Option (A × World))
      (f : A → Run B)
      → Ends o P
      → ((a : A) (w : World) → P a w → Ends (f a w) Q)
      → Ends (continue f o) Q
  ends_continue none f e k = absurd e.end
  ends_continue (some (a, w)) f e k = k a w e.end

  pub ends_if :
      {Q : A → World → Type 0} (b : Bool) (m n : Run A) (w : World)
      → (b ≡ true → Ends (m w) Q)
      → (b ≡ false → Ends (n w) Q)
      → Ends ((if b then m else n) w) Q
  ends_if true m n w f g = f refl
  ends_if false m n w f g = g refl

  pub ends_mono :
      {P Q : A → World → Type 0} (o : Option (A × World))
      → Ends o P
      → ((a : A) (w : World) → P a w → Q a w)
      → Ends o Q
  ends_mono none e k = absurd e.end
  ends_mono (some (a, w)) e k = record { end = k a w e.end }

  pub ends : {Q : A → World → Type 0} (a : A) (w : World) → Q a w → Ends (some (a, w)) Q
  ends a w q = record { end = q }
