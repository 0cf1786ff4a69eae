-- ===== src/Prelude/Options.antt =====
-- What an option that is present says of what it was made from.
use mathlib.Core.Path.{◌≡◌, refl}
use mathlib.Core.Bool.{Bool, true, false}
use mathlib.Core.Option
use mathlib.Core.Option.{Option, none, some}
use wsn.Prelude.Tests.{if◌then◌else◌}

pub map-eq_some {ℓ κ} :
    {A : Type ℓ} {B : Type κ} (f : A → B) (o : Option A) {b : B}
    → Option.map f o ≡ some b
    → (a : A) × (o ≡ some a) × (b ≡ f a)
map-eq_some f none h = cc
map-eq_some f (some a) h = (a, refl, cc)

pub if-eq_some {ℓ} :
    {A : Type ℓ} (b : Bool) (x : A) {a : A}
    → (if b then some x else none) ≡ some a
    → (b ≡ true) × (a ≡ x)
if-eq_some true x h = (refl, cc)
if-eq_some false x h = cc

pub gated-eq_some {ℓ κ} :
    {A : Type ℓ} {B : Type κ} (b : Bool) (f : A → B) (o : Option A) {y : B}
    → (if b then Option.map f o else none) ≡ some y
    → (b ≡ true) × (a : A) × (o ≡ some a) × (y ≡ f a)
gated-eq_some true f o h = let (a, e, p) = map-eq_some f o h in (refl, a, e, p)
gated-eq_some false f o h = cc
