-- ===== src/Packet/Structure/Gives.antt =====
-- Code that gives a result with a property, without a fault: the rules for parepare_tcomp_structure.
use rtp_decoder_test.Base.{◌≡◌, refl, Option, some}
use rtp_decoder_test.Packet.Geometry.{◌>>=◌}

pub record Gives {A : Type 0} (P : A → Type 0) (o : Option A) : Type 0 where
  pub value : A
  pub is_some : o ≡ some value
  pub holds : P value

abbrev pub Anything : {A : Type 0} → A → Type 0
Anything a = Unit {0}

pub some-Gives : {A : Type 0} (P : A → Type 0) (a : A) → P a → Gives P (some a)
some-Gives P a p = record { value = a; is_some = refl; holds = p }

pub bind-Gives :
    {A B : Type 0} (Q : A → Type 0) (P : B → Type 0) {m : Option A} {f : A → Option B}
    → Gives Q m
    → ((a : A) → Q a → Gives P (f a))
    → Gives P (m >>= f)
bind-Gives Q P {m} {f} g h =
    let r = h g.value g.holds in
    record { value = r.value; is_some = rw (g.is_some, ◌>>=◌) r.is_some; holds = r.holds }
