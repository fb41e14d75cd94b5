-- ===== src/Common/Errors.antt =====
-- Results of code that may throw.
use Prim.Native.Nat.{ℕ}
use mathlib.Core.Path.{◌≡◌, refl}
use mathlib.Core.List.{List}

-- What the sources throw.
pub data Error : Type 0 where
  -- `hexToBytes: odd-length hex (n chars)`
  odd_length : ℕ → Error
  -- `hexToBytes: invalid hex characters`
  invalid_hex : Error
  -- the SyntaxError of `BigInt` on a string that is no integer
  not_bigint : Error
  -- the RangeError of `BigInt` on a number that is no integer
  not_integer : Error
  -- the RangeError of `Uint8Array.prototype.set` on bytes that do not fit
  out_of_range : Error
  -- `new Error(message)`
  thrown : List ℕ → Error

-- What such code comes to.
pub data Result {ℓ} (A : Type ℓ) : Type ℓ where
  err : Error → Result A
  ok : A → Result A

pub ok-injective {ℓ} : {A : Type ℓ} {x y : A} → ok x ≡ ok y → x ≡ y
ok-injective e = cc

infixl 5 ◌>>=◌
-- One step behind another, unless the first one threw.
abbrev pub ◌>>=◌ {κ ℓ} :
    {S : Type κ} {T : Type ℓ} → (first : Result S) → (next : S → Result T) → Result T
err e >>= next = err e
ok x >>= next = next x

-- Two steps that came to a result, each for itself.
pub >>=-eq-ok {κ ℓ} :
    {S : Type κ} {T : Type ℓ} (first : Result S) (next : S → Result T) {y : T}
    → (first >>= next) ≡ ok y
    → (x : S) × (first ≡ ok x) × (next x ≡ ok y)
>>=-eq-ok (err e) next h = cc
>>=-eq-ok (ok x) next h = (x, refl, h)
