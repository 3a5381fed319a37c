-- ===== src/Common/Result.antt =====
-- `anyhow::Result`: a value, or an error that is known by its outermost context message.
use Prim.Native.String.{String}
use mathlib.Core.Path.{◌≡◌, refl}
use mathlib.Core.Logic.{◌⊎◌, inl, inr}
use mathlib.Core.Bool.{Bool, true, false}
use mathlib.Core.Option.{Option, none, some}

pub data Result {ℓ} (A : Type ℓ) : Type ℓ where
  ok : A → Result A
  err : String → Result A

infixl 10 ◌>>=◌
abbrev pub ◌>>=◌ {ℓ κ} : {A : Type ℓ} {B : Type κ} → Result A → (A → Result B) → Result B
ok a >>= f = f a
err e >>= f = err e

-- `Context::context`, on a result and on an option
abbrev pub context {ℓ} : {A : Type ℓ} → Result A → String → Result A
context (ok a) message = ok a
context (err e) message = err message

abbrev pub require {ℓ} : {A : Type ℓ} → Option A → String → Result A
require (some a) message = ok a
require none message = err message

-- `ensure!`
abbrev pub ensure : Bool → String → Result (Unit {0})
ensure true message = ok tt
ensure false message = err message

pub Result-cases {ℓ} :
    {A : Type ℓ} (r : Result A) → ((a : A) × (r ≡ ok a)) ⊎ ((e : String) × (r ≡ err e))
Result-cases (ok a) = inl (a, refl)
Result-cases (err e) = inr (e, refl)

-- `OnOk P r`: the value of `r` meets `P`, if there is one.
abbrev pub OnOk {ℓ κ} : {A : Type ℓ} → (A → Type κ) → Result A → Type κ
OnOk P (ok a) = P a
OnOk P (err e) = Unit

-- What every value of `f` meets, a chain that ends in `f` meets.
pub OnOk->>= {ℓ κ μ} :
    {A : Type ℓ} {B : Type κ} (P : B → Type μ) (m : Result A) (f : A → Result B)
    → ((a : A) → OnOk P (f a))
    → OnOk P (m >>= f)
OnOk->>= P (ok a) f h = h a
OnOk->>= P (err e) f h = tt

pub OnOk-then {ℓ κ μ ν} :
    {A : Type ℓ} {B : Type κ} (P : A → Type μ) (Q : B → Type ν) (m : Result A) (f : A → Result B)
    → OnOk P m
    → ((a : A) → P a → OnOk Q (f a))
    → OnOk Q (m >>= f)
OnOk-then P Q (ok a) f p h = h a p
OnOk-then P Q (err e) f p h = tt

pub OnOk-map {ℓ κ μ} :
    {A : Type ℓ} (P : A → Type κ) (Q : A → Type μ)
    → ((a : A) → P a → Q a)
    → (r : Result A) → OnOk P r
    → OnOk Q r
OnOk-map P Q f (ok a) p = f a p
OnOk-map P Q f (err e) p = tt

pub context-OnOk {ℓ κ} :
    {A : Type ℓ} (P : A → Type κ) (r : Result A) (message : String)
    → OnOk P r
    → OnOk P (context r message)
context-OnOk P (ok a) message p = p
context-OnOk P (err e) message p = tt

-- What is known of the value of a single call
pub OnOk-context {ℓ} :
    {A : Type ℓ} (r : Result A) (message : String) → OnOk (λ a. r ≡ ok a) (context r message)
OnOk-context (ok a) message = refl
OnOk-context (err e) message = tt

pub OnOk-require {ℓ} :
    {A : Type ℓ} (o : Option A) (message : String) → OnOk (λ a. o ≡ some a) (require o message)
OnOk-require (some a) message = refl
OnOk-require none message = tt

pub OnOk-ensure : (b : Bool) (message : String) → OnOk (λ u. b ≡ true) (ensure b message)
OnOk-ensure true message = refl
OnOk-ensure false message = tt

pub OnOk-and {ℓ κ μ} :
    {A : Type ℓ} (P : A → Type κ) (Q : A → Type μ) (r : Result A)
    → OnOk P r
    → OnOk Q r
    → OnOk (λ a. P a × Q a) r
OnOk-and P Q (ok a) p q = (p, q)
OnOk-and P Q (err e) p q = tt
