-- ===== src/Base/Calls.antt =====
-- What a C++ call can do other than return.
use mathlib.Core.Path.{◌≡◌, refl, subst}
use mathlib.Core.Logic.{◌⊎◌, inl, inr}
use mathlib.Core.Bool.{Bool, true, false}
use native.Mathlib.Omega.{arith}
use mathlib.Core.Option.{Option, none, some}

-- `poco_exception` and `bad_alloc` are thrown, and only the first is ever caught; `assertion` is a
-- failed `assert`; the others are accesses outside a live object.
pub data Fault : Type 0 where
  poco_exception bad_alloc assertion over_read over_write bad_pointer : Fault

pub data Outcome {ℓ} (A : Type ℓ) : Type ℓ where
  done : A → Outcome A
  fault : Fault → Outcome A

infixl 5 ◌>>=◌ ◌>>◌
abbrev pub ◌>>=◌ {ℓ κ} : {A : Type ℓ} {B : Type κ} → Outcome A → (A → Outcome B) → Outcome B
done a >>= f = f a
fault e >>= f = fault e

abbrev pub ◌>>◌ {ℓ} : {B : Type ℓ} → Outcome (Unit {0}) → Outcome B → Outcome B
m >> k = m >>= λ _. k

abbrev pub assert : Bool → Outcome (Unit {0})
assert true = done tt
assert false = fault assertion

-- A value, or the fault that its absence is.
abbrev pub or_fault {ℓ} : {A : Type ℓ} → Fault → Option A → Outcome A
or_fault e none = fault e
or_fault e (some a) = done a

-- `try { m } catch (Exception) { r }`
abbrev pub catch_poco {ℓ} : {A : Type ℓ} → Outcome A → Outcome A → Outcome A
catch_poco (done a) r = done a
catch_poco (fault poco_exception) r = r
catch_poco (fault bad_alloc) r = fault bad_alloc
catch_poco (fault assertion) r = fault assertion
catch_poco (fault over_read) r = fault over_read
catch_poco (fault over_write) r = fault over_write
catch_poco (fault bad_pointer) r = fault bad_pointer

pub >>=-eq-done {ℓ κ} :
    {A : Type ℓ} {B : Type κ} (m : Outcome A) (f : A → Outcome B) {b : B}
    → (m >>= f) ≡ done b
    → (a : A) × (m ≡ done a) × (f a ≡ done b)
>>=-eq-done (done a) f h = (a, refl, h)
>>=-eq-done (fault e) f h = cc

pub >>=-assoc {ℓ κ μ} :
    {A : Type ℓ} {B : Type κ} {C : Type μ} (m : Outcome A) (f : A → Outcome B) (g : B → Outcome C)
    → ((m >>= f) >>= g) ≡ (m >>= λ a. f a >>= g)
>>=-assoc (done a) f g = refl
>>=-assoc (fault e) f g = refl

-- Two calls that do alike behind the same call.
pub >>=-ap {ℓ κ} :
    {A : Type ℓ} {B : Type κ} (m : Outcome A) (f g : A → Outcome B)
    → ((a : A) → f a ≡ g a)
    → (m >>= f) ≡ (m >>= g)
>>=-ap (done a) f g h = h a
>>=-ap (fault e) f g h = refl

-- The same with a last step behind the second call.
pub >>=-under {ℓ κ μ} :
    {A : Type ℓ} {B : Type κ} {C : Type μ} (m : Outcome A) (f : A → Outcome C) (g : A → Outcome B)
    (k : B → Outcome C)
    → ((a : A) → f a ≡ (g a >>= k))
    → (m >>= f) ≡ ((m >>= g) >>= k)
>>=-under (done a) f g k h = h a
>>=-under (fault e) f g k h = refl

pub Outcome-cases {ℓ} :
    {A : Type ℓ} (m : Outcome A) → ((a : A) × (m ≡ done a)) ⊎ ((e : Fault) × (m ≡ fault e))
Outcome-cases (done a) = inl (a, refl)
Outcome-cases (fault e) = inr (e, refl)

pub done-injective {ℓ} : {A : Type ℓ} {a b : A} → done a ≡ done b → a ≡ b
done-injective e = ground arith

-- What a call returns, if it returns, satisfies a predicate.
abbrev pub Ensures {ℓ κ} : {A : Type ℓ} → (A → Type κ) → Outcome A → Type κ
Ensures P (done a) = P a
Ensures P (fault e) = Unit

pub Ensures-bind {ℓ κ μ ν} :
    {A : Type ℓ} {B : Type κ} (Q : A → Type μ) (P : B → Type ν) (m : Outcome A) (f : A → Outcome B)
    → Ensures Q m
    → ((a : A) → Q a → Ensures P (f a))
    → Ensures P (m >>= f)
Ensures-bind Q P (done a) f h k = k a h
Ensures-bind Q P (fault e) f h k = tt

pub Ensures-map {ℓ κ μ} :
    {A : Type ℓ} (P : A → Type κ) (Q : A → Type μ) (m : Outcome A)
    → Ensures P m
    → ((a : A) → P a → Q a)
    → Ensures Q m
Ensures-map P Q (done a) h k = k a h
Ensures-map P Q (fault e) h k = tt

pub Ensures-done {ℓ κ} :
    {A : Type ℓ} (P : A → Type κ) (m : Outcome A) (a : A) → Ensures P m → m ≡ done a → P a
Ensures-done P (done b) a h e = subst P (done-injective e) h
Ensures-done P (fault x) a h e = absurd (ground arith)

-- The value that a call returns.
pub Ensures-self {ℓ} : {A : Type ℓ} (m : Outcome A) → Ensures (λ a. m ≡ done a) m
Ensures-self (done a) = refl
Ensures-self (fault e) = tt

pub Ensures-both {ℓ κ μ} :
    {A : Type ℓ} (P : A → Type κ) (Q : A → Type μ) (m : Outcome A)
    → Ensures P m
    → Ensures Q m
    → Ensures (λ a. P a × Q a) m
Ensures-both P Q (done a) h k = (h, k)
Ensures-both P Q (fault e) h k = tt

pub Ensures-step {ℓ κ μ} :
    {A : Type ℓ} {B : Type κ} (P : B → Type μ) (m : Outcome A) (f : A → Outcome B)
    → ((a : A) → Ensures P (f a))
    → Ensures P (m >>= f)
Ensures-step P (done a) f k = k a
Ensures-step P (fault e) f k = tt

pub Ensures-catch {ℓ κ} :
    {A : Type ℓ} (P : A → Type κ) (m r : Outcome A)
    → Ensures P m
    → Ensures P r
    → Ensures P (catch_poco m r)
Ensures-catch P (done a) r h k = h
Ensures-catch P (fault poco_exception) r h k = k
Ensures-catch P (fault bad_alloc) r h k = tt
Ensures-catch P (fault assertion) r h k = tt
Ensures-catch P (fault over_read) r h k = tt
Ensures-catch P (fault over_write) r h k = tt
Ensures-catch P (fault bad_pointer) r h k = tt
