-- ===== src/Base/Outcomes.antt =====
-- What a C++ call comes back with: a value or an exception. A loop on fuel has one outcome more.
use mathlib.Core.Path.{◌≡◌, refl, subst}
use mathlib.Core.Logic.{◌≢◌, ◌⊎◌, inl, inr}
use mathlib.Core.Bool.{Bool, true, false}
use bitcoin_tui.Base.Text.{Bytes}
use bitcoin_tui.Base.Tests.{if◌then◌else◌}

-- The exceptions that the program throws or lets through, with the text of `what()` where the
-- program writes it; that of the standard library's own exceptions is left open.
pub data Exception : Type 0 where
  json_exception : Bytes → Exception
  rpc_error : Bytes → Exception
  invalid_argument : Exception
  out_of_range : Exception

pub data Outcome {ℓ} (A : Type ℓ) : Type ℓ where
  ok : A → Outcome A
  throw : Exception → Outcome A
  out_of_fuel : Outcome A

abbrev pub bind {ℓ κ} : {A : Type ℓ} {B : Type κ} → Outcome A → (A → Outcome B) → Outcome B
bind (ok a) f = f a
bind (throw e) f = throw e
bind out_of_fuel f = out_of_fuel

-- A call of the standard library, which throws or returns.
abbrev pub outcome_of {ℓ} : {A : Type ℓ} → Exception ⊎ A → Outcome A
outcome_of (inl e) = throw e
outcome_of (inr a) = ok a

-- `try { m } catch (...) { h }`: running out of fuel is no exception, so it is not caught.
abbrev pub catch_all {ℓ} : {A : Type ℓ} → Outcome A → (Exception → Outcome A) → Outcome A
catch_all (ok a) h = ok a
catch_all (throw e) h = h e
catch_all out_of_fuel h = out_of_fuel

-- The call ends within its fuel, and what it returns satisfies `P`.
pub data Ensures {ℓ} {A : Type ℓ} (P : A → Type 0) : Outcome A → Type ℓ where
  returns : {a : A} → P a → Ensures P (ok a)
  throws : {e : Exception} → Ensures P (throw e)

-- The same by computation, for the tactics that split on tests.
abbrev pub Post {ℓ} : {A : Type ℓ} → (A → Type 0) → Outcome A → Type 0
Post P (ok a) = P a
Post P (throw e) = Unit
Post P out_of_fuel = ⊥

module _ {ℓ} {A : Type ℓ} {P : A → Type 0} where
  pub Ensures-of : (r : Outcome A) → Post P r → Ensures P r
  Ensures-of (ok a) h = returns h
  Ensures-of (throw e) h = throws
  Ensures-of out_of_fuel h = absurd h

  pub Ensures-ok : {r : Outcome A} {a : A} → Ensures P r → r ≡ ok a → P a
  Ensures-ok (returns h) e = subst P (cc) h
  Ensures-ok throws e = cc

  pub Ensures-out_of_fuel : {r : Outcome A} → Ensures P r → r ≢ out_of_fuel
  Ensures-out_of_fuel (returns h) = cc
  Ensures-out_of_fuel throws = cc

  pub Ensures-if :
      (b : Bool) {x y : Outcome A}
      → (b ≡ true → Ensures P x)
      → (b ≡ false → Ensures P y)
      → Ensures P (if b then x else y)
  Ensures-if true hx hy = hx refl
  Ensures-if false hx hy = hy refl

  pub Ensures-bind {κ} :
      {B : Type κ} {Q : B → Type 0} {r : Outcome A} {f : A → Outcome B}
      → Ensures P r
      → ((a : A) → P a → Ensures Q (f a))
      → Ensures Q (bind r f)
  Ensures-bind (returns {a} h) k = k a h
  Ensures-bind throws k = throws

  pub Ensures-map :
      {Q : A → Type 0} {r : Outcome A} → Ensures P r → ((a : A) → P a → Q a) → Ensures Q r
  Ensures-map (returns {a} h) k = returns (k a h)
  Ensures-map throws k = throws

  -- A test between two functions, applied.
  pub Ensures-if_apply {κ} :
      {B : Type κ} (b : Bool) (f g : B → Outcome A) {x : B}
      → (b ≡ true → Ensures P (f x))
      → (b ≡ false → Ensures P (g x))
      → Ensures P ((if b then f else g) x)
  Ensures-if_apply true f g hf hg = hf refl
  Ensures-if_apply false f g hf hg = hg refl

pub outcome_of-Ensures {ℓ} : {A : Type ℓ} (r : Exception ⊎ A) → Ensures (λ a. Unit) (outcome_of r)
outcome_of-Ensures (inl e) = throws
outcome_of-Ensures (inr a) = returns tt

-- The exception that the call throws, if it throws one, satisfies `E`.
pub data Throws {ℓ} {A : Type ℓ} (E : Exception → Type 0) : Outcome A → Type ℓ where
  no_throw : {a : A} → Throws E (ok a)
  thrown : {e : Exception} → E e → Throws E (throw e)
  stopped : Throws E out_of_fuel

module _ {ℓ} {A : Type ℓ} {E : Exception → Type 0} where
  pub Throws-if :
      (b : Bool) {x y : Outcome A} → Throws E x → Throws E y → Throws E (if b then x else y)
  Throws-if true hx hy = hx
  Throws-if false hx hy = hy

  pub Throws-bind {κ} :
      {B : Type κ} {r : Outcome A} {f : A → Outcome B}
      → Throws E r
      → ((a : A) → Throws E (f a))
      → Throws E (bind r f)
  Throws-bind (no_throw {a}) k = k a
  Throws-bind (thrown h) k = thrown h
  Throws-bind stopped k = stopped

  pub Throws-catch_all :
      (r : Outcome A) (h : Exception → Outcome A)
      → ((e : Exception) → Throws E (h e))
      → Throws E (catch_all r h)
  Throws-catch_all (ok a) h k = no_throw
  Throws-catch_all (throw e) h k = k e
  Throws-catch_all out_of_fuel h k = stopped

-- The call returns: it neither throws nor runs out of fuel.
abbrev pub Returns {ℓ} : {A : Type ℓ} → Outcome A → Type ℓ
Returns {A = A} r = (a : A) × (r ≡ ok a)

pub Returns-if {ℓ} :
    {A : Type ℓ} (b : Bool) {x y : Outcome A}
    → (b ≡ true → Returns x)
    → (b ≡ false → Returns y)
    → Returns (if b then x else y)
Returns-if true hx hy = hx refl
Returns-if false hx hy = hy refl

throw≢ok {ℓ} : {A : Type ℓ} {e : Exception} {a : A} → throw e ≢ ok a
throw≢ok h = cc

out_of_fuel≢ok {ℓ} : {A : Type ℓ} {a : A} → out_of_fuel ≢ ok a
out_of_fuel≢ok h = cc

pub Returns-bind {ℓ κ} :
    {A : Type ℓ} {B : Type κ} {r : Outcome A} {f : A → Outcome B}
    → Returns r
    → ((a : A) → Returns (f a))
    → Returns (bind r f)
Returns-bind {r = ok a} h k = k a
Returns-bind {r = throw e} h k = absurd (throw≢ok h.1)
Returns-bind {r = out_of_fuel} h k = absurd (out_of_fuel≢ok h.1)
