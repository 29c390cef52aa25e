-- ===== src/Common/Checked.antt =====
-- Functions that fail and change no state: `?` on plain results.
use mathlib.Core.Path.{◌≡◌, refl}
use mathlib.Core.Bool.{Bool, true, false}
use novabase.Common.Result.{NovaError, Result, ok, err}

module _ {ℓ κ} {A : Type ℓ} {B : Type κ} where
  infixl 5 ◌>>=◌
  -- `value?`, and what is done with it
  abbrev pub ◌>>=◌ : Result A → (A → Result B) → Result B
  ◌>>=◌ (ok value) rest = rest value
  ◌>>=◌ (err kind) rest = err kind

  -- A chain that succeeds has a first step that succeeded.
  pub >>=-ok :
      (first : Result A) (rest : A → Result B) {outcome : B}
      → (first >>= rest) ≡ ok outcome
      → (value : A) × (first ≡ ok value) × (rest value ≡ ok outcome)
  >>=-ok (ok value) rest e = (value, refl, e)
  >>=-ok (err kind) rest e = cc

infixl 5 ◌>>◌
-- a check, and what follows it
abbrev pub ◌>>◌ {κ} : {B : Type κ} → Result (Unit {0}) → Result B → Result B
check >> rest = check >>= λ _. rest

-- `if bad { return Err(kind) }`
abbrev pub refuse_if : Bool → NovaError → Result (Unit {0})
refuse_if true kind = err kind
refuse_if false kind = ok tt

pub refuse_if-ok :
    (bad : Bool) (kind : NovaError) {u : Unit {0}} → refuse_if bad kind ≡ ok u → bad ≡ false
refuse_if-ok true kind e = cc
refuse_if-ok false kind e = refl
