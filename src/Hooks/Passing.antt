-- ===== src/Hooks/Passing.antt =====
-- What it says of the checks of agent/hooks.py that a sequence of them passed.
use wheelta_robinhood_agent.Common.{◌≡◌, refl, Bool, true, false, not, ◌&&◌, Option, none, some}
use wheelta_robinhood_agent.Hooks.{
  Attempt, raised, returned, Denial, Check, denied, failed, passed, ◌>>=◌, deny_if, attempt,
  deny_for, or_deny,
}
use wheelta_robinhood_agent.Hooks.Decide.{when}

module _ {ℓ κ} {A : Type ℓ} {B : Type κ} where
  pub >>=-passed :
      (c : Check A) (next : A → Check B) {b : B}
      → (c >>= next) ≡ passed b
      → (a : A) × (c ≡ passed a) × (next a ≡ passed b)
  >>=-passed (denied reason) next h = cc
  >>=-passed failed next h = cc
  >>=-passed (passed a) next h = (a, refl, h)

module _ {κ} {B : Type κ} where
  pub then-passed :
      (c : Check (Unit {0})) (next : Check B) {b : B}
      → (c >>= λ _. next) ≡ passed b
      → (c ≡ passed tt) × (next ≡ passed b)
  then-passed (denied reason) next h = cc
  then-passed failed next h = cc
  then-passed (passed tt) next h = (refl, h)

pub deny_if-passed : (b : Bool) (d : Denial) → deny_if b d ≡ passed tt → b ≡ false
deny_if-passed true d h = absurd cc
deny_if-passed false d h = refl

pub deny_not-passed : (b : Bool) (d : Denial) → deny_if (not b) d ≡ passed tt → b ≡ true
deny_not-passed true d h = refl
deny_not-passed false d h = absurd cc

pub deny_unless-passed :
    (a b : Bool) (d : Denial) → deny_if (a && not b) d ≡ passed tt → a ≡ true → b ≡ true
deny_unless-passed true true d h e = refl
deny_unless-passed true false d h e = absurd cc
deny_unless-passed false b d h e = absurd cc

pub when-passed :
    (b : Bool) (c : Check (Unit {0})) → when b c ≡ passed tt → b ≡ true → c ≡ passed tt
when-passed true c h e = h
when-passed false c h e = absurd cc

module _ {ℓ} {A : Type ℓ} where
  pub or_deny-passed : (o : Option A) (d : Denial) {a : A} → or_deny o d ≡ passed a → o ≡ some a
  or_deny-passed none d h = absurd cc
  or_deny-passed (some a) d h = cc

  pub deny_for-passed :
      (denial : A → Denial) (o : Option A) → deny_for denial o ≡ passed tt → o ≡ none
  deny_for-passed denial none h = refl
  deny_for-passed denial (some a) h = absurd cc

  pub attempt-passed : (t : Attempt A) {a : A} → attempt t ≡ passed a → t ≡ returned a
  attempt-passed raised h = absurd cc
  attempt-passed (returned a) h = cc
