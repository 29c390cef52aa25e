-- ===== src/Common/Result.antt =====
-- crates/nova-core/src/error.rs: the errors by kind, and methods that change a state and may fail.
-- The messages are dropped. What a method wrote before it failed stays written, so the state
-- comes back beside the error too.
use mathlib.Core.Bool.{Bool, true, false}
use mathlib.Core.Path.{◌≡◌, refl, sym, ap}
use mathlib.Core.Logic.{◌⊎◌, inl, inr}
use native.Mathlib.Omega.{arith}
use mathlib.Core.Option.{Option, none, some}

pub data NovaError : Type 0 where
  internal invalid_argument not_found already_exists unsupported storage corruption auth : NovaError
  permission_denied invalid_state timeout io : NovaError

pub data Result {ℓ} (A : Type ℓ) : Type ℓ where
  ok : A → Result A
  err : NovaError → Result A

-- `NovaError::is_corruption`
unfoldable pub is_corruption : NovaError → Bool
is_corruption corruption = true
is_corruption _ = false

-- `.ok_or_else(..)`
abbrev pub ok_or {ℓ} : {A : Type ℓ} → Option A → NovaError → Result A
ok_or none e = err e
ok_or (some a) e = ok a

-- A `&mut self` method.
abbrev pub Method {ℓ} : Type ℓ → Type ℓ → Type ℓ
Method S A = S → Result A × S

module _ {ℓ} {S A : Type ℓ} where
  abbrev pub return : A → Method S A
  return a s = (ok a, s)

  abbrev pub fail : NovaError → Method S A
  fail e s = (err e, s)

  -- `r?` on a pure result
  abbrev pub lift : Result A → Method S A
  lift r s = (r, s)

  abbrev pub gets : (S → A) → Method S A
  gets f s = (ok (f s), s)

module _ {ℓ} {S : Type ℓ} where
  abbrev pub modify : (S → S) → Method S (Unit {ℓ})
  modify f s = (ok tt, f s)

  abbrev pub fail_if : Bool → NovaError → Method S (Unit {ℓ})
  fail_if true e s = (err e, s)
  fail_if false e s = (ok tt, s)

  pub fail_if-ok :
      (b : Bool) (e : NovaError) {s t : S} {u : Unit {ℓ}}
      → fail_if b e s ≡ (ok u, t)
      → (b ≡ false) × (t ≡ s)
  fail_if-ok true e h = cc
  fail_if-ok false e h = (refl, sym (ap (λ x. x.1) h))

module _ {ℓ} {S A B : Type ℓ} where
  abbrev pub and_then : Result A × S → (A → Method S B) → Result B × S
  and_then (ok a, s) f = f a s
  and_then (err e, s) f = (err e, s)

  infixl 5 ◌>>=◌ ◌>>◌
  abbrev pub ◌>>=◌ : Method S A → (A → Method S B) → Method S B
  ◌>>=◌ m f s = and_then (m s) f

  abbrev pub ◌>>◌ : Method S A → Method S B → Method S B
  m >> k = m >>= λ _. k

  -- What a chain that succeeds has passed.
  pub and_then-ok :
      (x : Result A × S) (f : A → Method S B) {b : B} {t : S}
      → and_then x f ≡ (ok b, t)
      → (a : A) × (s : S) × (x ≡ (ok a, s)) × (f a s ≡ (ok b, t))
  and_then-ok (ok a, s) f h = (a, s, refl, h)
  and_then-ok (err e, s) f h = cc

  -- A chain that fails has failed in its first step or after it.
  pub and_then-err :
      (x : Result A × S) (f : A → Method S B) {e : NovaError} {t : S}
      → and_then x f ≡ (err e, t)
      → (x ≡ (err e, t)) ⊎ ((a : A) × (s : S) × (x ≡ (ok a, s)) × (f a s ≡ (err e, t)))
  and_then-err (ok a, s) f h = inr (a, s, refl, h)
  and_then-err (err e, s) f h = inl (ground arith)

  -- A property of the state that each step keeps, on success and on failure, holds of the chain.
  pub bind-keeps {κ} :
      (P : S → Type κ) (x : Result A × S) (f : A → Method S B)
      → P x.1
      → ((a : A) (s : S) → x ≡ (ok a, s) → P s → P (f a s).1)
      → P (and_then x f).1
  bind-keeps P (ok a, s) f h k = k a s refl h
  bind-keeps P (err e, s) f h k = h
