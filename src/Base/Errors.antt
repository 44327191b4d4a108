-- ===== src/Base/Errors.antt =====
-- `ContractError` of src/qste/core/contracts.py, by its reason code, and the result of a call that
-- may raise one. The message, path and keyword of an error are for people and are not modelled.
use mathlib.Core.Path.{◌≡◌, refl, sym, subst}
use mathlib.Core.Logic.{◌⊎◌, inl, inr}
use mathlib.Core.Bool.{Bool, true, false, not, ◌&&◌}
use native.Mathlib.Omega.{arith}
use qste.Base.Tests.{if◌then◌else◌}

pub data ReasonCode : Type 0 where
  invalid_input : ReasonCode
  invalid_assessment_spec : ReasonCode
  invalid_comparison_spec : ReasonCode
  conformance_failed : ReasonCode
  capability_unavailable : ReasonCode
  policy_refused : ReasonCode
  partial_completion : ReasonCode
  execution_failed : ReasonCode
  internal_error : ReasonCode
  authority_unresolved : ReasonCode
  standing_unverified : ReasonCode
  standing_denied : ReasonCode
  resource_limit : ReasonCode

pub data Result {ℓ} (A : Type ℓ) : Type ℓ where
  ok : A → Result A
  err : ReasonCode → Result A

-- `if bad: raise ContractError(code, ...)`
abbrev pub raise_if : Bool → ReasonCode → Result (Unit {0})
raise_if true e = err e
raise_if false e = ok tt

-- What follows a call runs on its value, and an error is passed on.
abbrev pub ◌>>=◌ {ℓ κ} :
    {Before : Type ℓ} {After : Type κ} → Result Before → (Before → Result After) → Result After
err code >>= _ = err code
ok value >>= next = next value

infixl 5 ◌>>=◌
-- `m >> k` for a check, whose value says nothing.
infixl 5 ◌>>◌
abbrev pub ◌>>◌ {μ} : {After : Type μ} → Result (Unit {0}) → Result After → Result After
check >> rest = check >>= (λ _. rest)

pub raise_if-eq-ok : (b : Bool) (e : ReasonCode) → raise_if b e ≡ ok tt → b ≡ false
raise_if-eq-ok b e h = ground arith

-- `P` holds of what a call returns, if it returns.
abbrev pub Ensures {ℓ κ} : {A : Type ℓ} → (A → Type κ) → Result A → Type κ
Ensures P (ok a) = P a
Ensures P (err e) = Unit

pub Ensures-bind {ℓ κ μ ν} :
    {A : Type ℓ} {B : Type κ} (P : A → Type μ) (Q : B → Type ν) (m : Result A) (f : A → Result B)
    → Ensures P m
    → ((a : A) → P a → Ensures Q (f a))
    → Ensures Q (m >>= f)
Ensures-bind P Q (ok a) f h k = k a h
Ensures-bind P Q (err e) f h k = tt

-- For a step whose value matters only by its equation.
pub Ensures-eq {ℓ} : {A : Type ℓ} (m : Result A) → Ensures (λ a. m ≡ ok a) m
Ensures-eq (ok a) = refl
Ensures-eq (err e) = tt

pub Ensures-eq_ok {ℓ κ} :
    {A : Type ℓ} (P : A → Type κ) (m : Result A) {a : A} → Ensures P m → m ≡ ok a → P a
Ensures-eq_ok P (ok b) h e = subst P (cc) h
Ensures-eq_ok P (err c) h e = cc

-- The call of a `do` block whose value the postcondition does not speak of.
pub Ensures-then {ℓ κ ν} :
    {A : Type ℓ} {B : Type κ} (Q : B → Type ν) (m : Result A) (f : A → Result B)
    → ((a : A) → Ensures Q (f a))
    → Ensures Q (m >>= f)
Ensures-then Q (ok a) f k = k a
Ensures-then Q (err e) f k = tt

pub Ensures-weaken {ℓ κ ν} :
    {A : Type ℓ} (P : A → Type κ) (Q : A → Type ν) (m : Result A)
    → Ensures P m
    → ((a : A) → P a → Q a)
    → Ensures Q m
Ensures-weaken P Q (ok a) h k = k a h
Ensures-weaken P Q (err e) h k = tt

pub Ensures-and {ℓ κ ν} :
    {A : Type ℓ} (P : A → Type κ) (Q : A → Type ν) (m : Result A)
    → Ensures P m
    → Ensures Q m
    → Ensures (λ a. P a × Q a) m
Ensures-and P Q (ok a) h k = (h, k)
Ensures-and P Q (err e) h k = tt

-- A call returns exactly when `may` holds, and then `P` holds of what it returns.
abbrev pub Answers {ℓ} : {A : Type ℓ} → (A → Type 0) → Bool → Result A → Type 0
Answers P may (ok a) = (may ≡ true) × P a
Answers P may (err e) = may ≡ false

-- What follows a guard may assume that it did not raise.
pub Ensures-raise_if {ℓ κ} :
    {B : Type ℓ} (Q : B → Type κ) (b : Bool) (e : ReasonCode) (k : Result B)
    → (b ≡ false → Ensures Q k)
    → Ensures Q (raise_if b e >> k)
Ensures-raise_if Q true e k h = tt
Ensures-raise_if Q false e k h = h refl

-- Two calls in a row return exactly when both may.
pub Answers-bind {ℓ κ} :
    {A : Type ℓ} {B : Type κ} (P : A → Type 0) (Q : B → Type 0) (a b : Bool) (m : Result A)
    (f : A → Result B)
    → Answers P a m
    → ((x : A) → P x → Answers Q b (f x))
    → Answers Q (a && b) (m >>= f)
Answers-bind P Q a b (ok x) f h k = subst (λ c. Answers Q (c && b) (f x)) (sym h.0) (k x h.1)
Answers-bind P Q a b (err e) f h k = ground arith

pub Answers-raise_if {κ} :
    {B : Type κ} (Q : B → Type 0) (a b : Bool) (e : ReasonCode) (k : Result B)
    → Answers Q b k
    → Answers Q (a && b) (raise_if (not a) e >> k)
Answers-raise_if Q true b e k h = h
Answers-raise_if Q false b e k h = refl

pub Answers-Ensures {ℓ} :
    {A : Type ℓ} (P : A → Type 0) (a : Bool) (m : Result A)
    → Answers (λ _. Unit) a m
    → Ensures P m
    → Answers P a m
Answers-Ensures P a (ok x) h k = (h.0, k)
Answers-Ensures P a (err e) h k = h

-- What a call ensures whatever it returns stays ensured by what follows it.
pub Ensures-first {ℓ κ ν} :
    {A : Type ℓ} {B : Type κ} (Q : Type ν) (m : Result A) (f : A → Result B)
    → Ensures (λ _. Q) m
    → Ensures (λ _. Q) (m >>= f)
Ensures-first Q (ok a) f h = elim (f a) as (λ r. Ensures (λ _. Q) r) [ ok b ↦ h | err e ↦ tt ]
Ensures-first Q (err e) f h = tt

-- Whether a call returns.
abbrev pub is_ok {ℓ} : {A : Type ℓ} → Result A → Bool
is_ok (ok a) = true
is_ok (err e) = false

pub Answers-is_ok {ℓ} :
    {A : Type ℓ} (P : A → Type 0) (m : Result A) → ((a : A) → P a) → Answers P (is_ok m) m
Answers-is_ok P (ok a) h = (refl, h a)
Answers-is_ok P (err e) h = refl

-- A checked value is returned.
pub Answers-return {ℓ κ} :
    {A : Type ℓ} {B : Type κ} (P : A → Type 0) (Q : B → Type 0) (may : Bool) (m : Result A) (b : B)
    → Answers P may m
    → ((a : A) → P a → Q b)
    → Answers Q may (m >>= (λ _. ok b))
Answers-return P Q may (ok a) b h k = (h.0, k a h.1)
Answers-return P Q may (err e) b h k = h

pub Answers-weaken {ℓ} :
    {A : Type ℓ} (P Q : A → Type 0) (may : Bool) (m : Result A)
    → Answers P may m
    → ((a : A) → P a → Q a)
    → Answers Q may m
Answers-weaken P Q may (ok a) h k = (h.0, k a h.1)
Answers-weaken P Q may (err e) h k = h

pub Ensures-always {ℓ κ} : {A : Type ℓ} (Q : Type κ) (m : Result A) → Q → Ensures (λ _. Q) m
Ensures-always Q (ok a) h = h
Ensures-always Q (err e) h = tt

pub ok_inj {ℓ} : {A : Type ℓ} {a b : A} → ok a ≡ ok b → a ≡ b
ok_inj h = cc

-- A call whose value is returned in another form.
pub Answers-map {ℓ κ} :
    {A : Type ℓ} {B : Type κ} (P : A → Type 0) (Q : B → Type 0) (may : Bool) (m : Result A)
    (f : A → B)
    → Answers P may m
    → ((a : A) → P a → Q (f a))
    → Answers Q may (m >>= (λ a. ok (f a)))
Answers-map P Q may (ok a) f h k = (h.0, k a h.1)
Answers-map P Q may (err e) f h k = h

-- The code raises where a test fails, and then goes on.
pub Answers-guard {κ} :
    {B : Type κ} (Q : B → Type 0) (a b t : Bool) (e : ReasonCode) (k : Result B)
    → t ≡ not a
    → Answers Q b k
    → Answers Q (a && b) (raise_if t e >> k)
Answers-guard Q true b true e k h q = cc
Answers-guard Q true b false e k h q = q
Answers-guard Q false b true e k h q = refl
Answers-guard Q false b false e k h q = cc

-- The last test: what follows returns.
pub Answers-last {κ} :
    {B : Type κ} (Q : B → Type 0) (a t : Bool) (e : ReasonCode) (k : Result B) (v : B)
    → t ≡ not a
    → k ≡ ok v
    → Q v
    → Answers Q a (raise_if t e >> k)
Answers-last Q true true e k v h r q = cc
Answers-last Q true false e k v h r q = rw r (refl, q)
Answers-last Q false true e k v h r q = refl
Answers-last Q false false e k v h r q = cc

-- Each branch may assume its test.
pub Ensures-if {ℓ κ} :
    {A : Type ℓ} (P : A → Type κ) (b : Bool) (x y : Result A)
    → (b ≡ true → Ensures P x)
    → (b ≡ false → Ensures P y)
    → Ensures P (if b then x else y)
Ensures-if P true x y h k = h refl
Ensures-if P false x y h k = k refl

-- Both checks of a row that returns have passed.
pub >>-first {κ} :
    {B : Type κ} (m : Result (Unit {0})) (k : Result B) {b : B} → (m >> k) ≡ ok b → m ≡ ok tt
>>-first (ok u) k h = refl
>>-first (err e) k h = cc

pub >>-rest {κ} :
    {B : Type κ} (m : Result (Unit {0})) (k : Result B) {b : B} → (m >> k) ≡ ok b → k ≡ ok b
>>-rest (ok u) k h = h
>>-rest (err e) k h = cc

-- To split on a call and keep the equation.
pub Result-cases {ℓ} :
    {A : Type ℓ} (m : Result A) → ((a : A) × (m ≡ ok a)) ⊎ ((e : ReasonCode) × (m ≡ err e))
Result-cases (ok a) = inl (a, refl)
Result-cases (err e) = inr (e, refl)
