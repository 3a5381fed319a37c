-- ===== src/Common/Outcome.antt =====
-- What a call that may also panic comes to: a value, an error with its outermost message, or a panic.
use Prim.Native.String.{String}
use mathlib.Core.Path.{◌≡◌, refl}
use mathlib.Core.Logic.{◌⊎◌, inl, inr}
use mathlib.Core.Bool.{Bool, true, false}
use mathlib.Core.Option.{Option, none, some}
use dmarc_report_viewer.Common.Result.{Result, ok, err}

pub data Outcome {ℓ} (A : Type ℓ) : Type ℓ where
  done : A → Outcome A
  failed : String → Outcome A
  panicked : Outcome A

infixl 10 ◌>>=◌
abbrev pub ◌>>=◌ {ℓ κ} : {A : Type ℓ} {B : Type κ} → Outcome A → (A → Outcome B) → Outcome B
done a >>= f = f a
failed e >>= f = failed e
panicked >>= f = panicked

-- `?` on a result and on an option, after `context`
abbrev pub attempt {ℓ} : {A : Type ℓ} → Result A → String → Outcome A
attempt (ok a) message = done a
attempt (err e) message = failed message

abbrev pub demand {ℓ} : {A : Type ℓ} → Option A → String → Outcome A
demand (some a) message = done a
demand none message = failed message

-- A slice that panics out of the bounds of characters
abbrev pub expect {ℓ} : {A : Type ℓ} → Option A → Outcome A
expect (some a) = done a
expect none = panicked

-- `expect` on a result
abbrev pub expect_ok {ℓ} : {A : Type ℓ} → Result A → Outcome A
expect_ok (ok a) = done a
expect_ok (err e) = panicked

-- `context` on a call that is made
abbrev pub with_context {ℓ} : {A : Type ℓ} → Outcome A → String → Outcome A
with_context (done a) message = done a
with_context (failed e) message = failed message
with_context panicked message = panicked

-- `ensure!` and `assert!`
abbrev pub ensure : Bool → String → Outcome (Unit {0})
ensure true message = done tt
ensure false message = failed message

abbrev pub assert : Bool → Outcome (Unit {0})
assert true = done tt
assert false = panicked

-- `OnDone P r`: the value of `r` meets `P`, if there is one.
abbrev pub OnDone {ℓ κ} : {A : Type ℓ} → (A → Type κ) → Outcome A → Type κ
OnDone P (done a) = P a
OnDone P (failed e) = Unit
OnDone P panicked = Unit

pub OnDone-then {ℓ κ μ ν} :
    {A : Type ℓ} {B : Type κ} (P : A → Type μ) (Q : B → Type ν) (m : Outcome A) (f : A → Outcome B)
    → OnDone P m
    → ((a : A) → P a → OnDone Q (f a))
    → OnDone Q (m >>= f)
OnDone-then P Q (done a) f p h = h a p
OnDone-then P Q (failed e) f p h = tt
OnDone-then P Q panicked f p h = tt

pub OnDone->>= {ℓ κ μ} :
    {A : Type ℓ} {B : Type κ} (P : B → Type μ) (m : Outcome A) (f : A → Outcome B)
    → ((a : A) → OnDone P (f a))
    → OnDone P (m >>= f)
OnDone->>= P (done a) f h = h a
OnDone->>= P (failed e) f h = tt
OnDone->>= P panicked f h = tt

pub OnDone-context {ℓ κ} :
    {A : Type ℓ} (P : A → Type κ) (r : Outcome A) (message : String)
    → OnDone P r
    → OnDone P (with_context r message)
OnDone-context P (done a) message p = p
OnDone-context P (failed e) message p = tt
OnDone-context P panicked message p = tt

-- What a chain that comes to a value went through.
pub >>=-eq-done {ℓ κ} :
    {A : Type ℓ} {B : Type κ} (m : Outcome A) (f : A → Outcome B) {b : B}
    → (m >>= f) ≡ done b
    → (a : A) × (m ≡ done a) × (f a ≡ done b)
>>=-eq-done (done a) f h = (a, refl, h)
>>=-eq-done (failed e) f h = cc
>>=-eq-done panicked f h = cc

pub done-inj {ℓ} : {A : Type ℓ} {x y : A} → done x ≡ done y → x ≡ y
done-inj h = cc

pub Outcome-cases {ℓ} :
    {A : Type ℓ} (r : Outcome A)
    → ((a : A) × (r ≡ done a)) ⊎ ((e : String) × (r ≡ failed e)) ⊎ (r ≡ panicked)
Outcome-cases (done a) = inl (a, refl)
Outcome-cases (failed e) = inr (inl (e, refl))
Outcome-cases panicked = inr (inr refl)

-- Where the value of a call comes from
pub done-expect_ok {ℓ} : {A : Type ℓ} (r : Result A) {a : A} → expect_ok r ≡ done a → r ≡ ok a
done-expect_ok (ok a) h = cc
done-expect_ok (err e) h = cc

pub done-attempt {ℓ} :
    {A : Type ℓ} (r : Result A) (message : String) {a : A} → attempt r message ≡ done a → r ≡ ok a
done-attempt (ok a) message h = cc
done-attempt (err e) message h = cc
