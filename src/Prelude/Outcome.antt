-- ===== src/Prelude/Outcome.antt =====
-- How a call ends: it returns, it panics (a failed `assert!`, `expect` or index, an
-- `unreachable!`), it is undefined (an access outside an allocation or to uninitialised memory), or
-- a loop of the model uses up the rounds that it was given.
use Prim.Native.Nat.{ℕ, zero, suc, ◌+◌, ◌≤◌}
use mathlib.Core.Path.{◌≡◌, refl, ◌∙◌, subst}
use mathlib.Core.Bool.{Bool, true, false}
use mathlib.Core.Option.{Option, none, some}
use native.Mathlib.Omega.{arith}
use b_link.Prelude.Tests.{if◌then◌else◌}

pub data Run {ℓ} (A : Type ℓ) : Type ℓ where
  ok : A → Run A
  panic undefined out_of_fuel : Run A

infixl 5 ◌>>=◌ ◌>>◌
abbrev pub ◌>>=◌ {ℓ κ} : {A : Type ℓ} {B : Type κ} → Run A → (A → Run B) → Run B
ok a >>= f = f a
panic >>= f = panic
undefined >>= f = undefined
out_of_fuel >>= f = out_of_fuel

abbrev pub ◌>>◌ {ℓ} : {B : Type ℓ} → Run (Unit {0}) → Run B → Run B
m >> k = m >>= λ _. k

-- `assert!`
abbrev pub assert : Bool → Run (Unit {0})
assert true = ok tt
assert false = panic

-- What the safety comment of an `unsafe` block asks for.
abbrev pub require : Bool → Run (Unit {0})
require true = ok tt
require false = undefined

-- `expect`, and an index that is checked.
abbrev pub expect {ℓ} : {A : Type ℓ} → Option A → Run A
expect none = panic
expect (some a) = ok a

-- A read of a slot that must hold a value.
abbrev pub initialized {ℓ} : {A : Type ℓ} → Option A → Run A
initialized none = undefined
initialized (some a) = ok a

-- Both calls return, with related results, or both panic.
pub data Refines {ℓ κ μ} {A : Type ℓ} {B : Type κ} (R : A → B → Type μ)
    : Run A → Run B → Type (ℓ ⊔ κ ⊔ μ) where
  returns : {a : A} {b : B} → R a b → Refines R (ok a) (ok b)
  panics : Refines R panic panic

module _ {ℓ κ μ} {A : Type ℓ} {B : Type κ} {R : A → B → Type μ} where
  pub Refines-if :
      {r s : Run A} {x y : Run B} (b : Bool)
      → (b ≡ true → Refines R r x)
      → (b ≡ false → Refines R s y)
      → Refines R (if b then r else s) (if b then x else y)
  Refines-if true p q = p refl
  Refines-if false p q = q refl

  pub Refines-assert :
      {r : Run A} {x : Run B} (b : Bool)
      → (b ≡ true → Refines R r x)
      → Refines R (assert b >> r) (assert b >> x)
  Refines-assert true p = p refl
  Refines-assert false p = panics

  -- A run that meets a run which returns, returns too.
  pub Refines-inv :
      {r : Run A} {x : Run B} {b : B} → Refines R r x → x ≡ ok b → (a : A) × (r ≡ ok a) × R a b
  Refines-inv {b} (returns {a} {b = c} p) e =
      (a, refl, mathlib.Core.Path.subst (λ z. R a z) (ok_inj e) p)
    where
      ok_inj : {x y : B} → ok x ≡ ok y → x ≡ y
      ok_inj e = cc
  Refines-inv panics e = absurd cc

-- From some number of rounds on, a loop returns.
abbrev pub Settles {ℓ} : {A : Type ℓ} → (ℕ → Run A) → A → Type ℓ
Settles f a = (rounds : ℕ) × ((more : ℕ) → rounds ≤ more → f more ≡ ok a)

module _ {ℓ} {A : Type ℓ} where
  pub Settles-now : (f : ℕ → Run A) (a : A) → ((r : ℕ) → f (suc r) ≡ ok a) → Settles f a
  Settles-now f a h = (1, go)
    where
      go : (r : ℕ) → 1 ≤ r → f r ≡ ok a
      go zero enough = absurd (omega arith)
      go (suc r) enough = h r

  pub Settles-from :
      (rounds : ℕ) (f : ℕ → Run A) (a : A)
      → ((r : ℕ) → rounds ≤ suc r → f (suc r) ≡ ok a)
      → Settles f a
  Settles-from rounds f a h = (suc rounds, go)
    where
      go : (r : ℕ) → suc rounds ≤ r → f r ≡ ok a
      go zero enough = absurd (omega arith)
      go (suc r) enough = h r (omega arith)

  pub Settles-later :
      (f g : ℕ → Run A) (a : A) → ((r : ℕ) → f (suc r) ≡ g r) → Settles g a → Settles f a
  Settles-later f g a h (rounds, settled) = (suc rounds, go)
    where
      go : (r : ℕ) → suc rounds ≤ r → f r ≡ ok a
      go zero enough = absurd (omega arith)
      go (suc r) enough = h r ∙ settled r (omega arith)

  pub Settles-then {κ} :
      {B : Type κ} (f : ℕ → Run A) (g : A → ℕ → Run B) (a : A) (b : B)
      → Settles f a
      → Settles (g a) b
      → Settles (λ r. f r >>= λ x. g x r) b
  Settles-then f g a b (first, earlier) (second, later) = (
    first + second,
    λ r enough.
        let run = earlier r (omega arith) in
        let rest = later r (omega arith) in rw (run, rest) refl,
  )

  -- A chain of calls returns if each of them does.
  pub bind-ok {κ} :
      {B : Type κ} (m : Run A) (f : A → Run B) (b : B)
      → (m >>= f) ≡ ok b
      → (a : A) × (m ≡ ok a) × (f a ≡ ok b)
  bind-ok (ok a) f b run = (a, refl, run)
  bind-ok panic f b run = absurd cc
  bind-ok undefined f b run = absurd cc
  bind-ok out_of_fuel f b run = absurd cc
