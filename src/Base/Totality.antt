-- ===== src/Base/Totality.antt =====
-- Calls that return, whatever they return.
use mathlib.Core.Path.{◌≡◌, refl}
use mathlib.Core.Bool.{Bool, true, ◌&&◌}
use qste.Base.Errors.{Result, ok, err, ◌>>=◌, is_ok, Answers, Ensures}

pub is_ok-bind {ℓ κ} :
    {X : Type ℓ} {Y : Type κ} (m : Result X) (f : X → Result Y)
    → is_ok m ≡ true
    → ((x : X) → is_ok (f x) ≡ true)
    → is_ok (m >>= f) ≡ true
is_ok-bind (ok x) f h k = k x
is_ok-bind (err e) f h k = cc

pub is_ok-and {ℓ κ} :
    {X : Type ℓ} {Y : Type κ} (m : Result X) (f : X → Result Y) (b : Bool)
    → ((x : X) → is_ok (f x) ≡ b)
    → is_ok (m >>= f) ≡ (is_ok m && b)
is_ok-and (ok x) f b k = k x
is_ok-and (err e) f b k = refl

pub is_ok-last {ℓ κ} :
    {X : Type ℓ} {Y : Type κ} (m : Result X) (f : X → Result Y)
    → ((x : X) → is_ok (f x) ≡ true)
    → is_ok (m >>= f) ≡ is_ok m
is_ok-last (ok x) f k = k x
is_ok-last (err e) f k = refl

pub Answers-returns {ℓ} :
    {X : Type ℓ} (P : X → Type 0) (may : Bool) (m : Result X)
    → Answers P may m
    → may ≡ true
    → is_ok m ≡ true
Answers-returns P may (ok x) h k = refl
Answers-returns P may (err e) h k = cc

pub Answers-of_Ensures {ℓ} :
    {X : Type ℓ} (P : X → Type 0) (m : Result X) → Ensures P m → Answers P (is_ok m) m
Answers-of_Ensures P (ok x) h = (refl, h)
Answers-of_Ensures P (err e) h = refl
