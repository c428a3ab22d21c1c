-- ===== src/Result.antt =====
-- Python's exceptions as values: the ones that the program raises or catches by their class.
use mathlib.Core.Path.{◌≡◌, refl}
use mathlib.Core.Bool.{Bool, true, false}
use Prim.Native.String.{String}

pub data Error : Type 0 where
  value_error : String → Error
  runtime_error : String → Error
  -- OSError, and its subclasses PermissionError and FileNotFoundError
  os_error : Error
  permission_error : Error
  file_not_found : Error
  superseded : Error
  -- subprocess.TimeoutExpired, which is no OSError
  timeout_expired : Error
  -- TypeError: a list or a dict where a hash is needed
  type_error : Error

pub data Result {ℓ} (A : Type ℓ) : Type ℓ where
  ok : A → Result A
  err : Error → Result A

-- `if bad: raise e`
abbrev pub raise_if : Bool → Error → Result (Unit {0})
raise_if true e = err e
raise_if false e = ok tt

-- The statements behind a call that may raise
infixl 5 ◌>>=◌ ◌>>◌
abbrev pub ◌>>=◌ {ℓ κ} : {V : Type ℓ} {R : Type κ} → Result V → (V → Result R) → Result R
err raised >>= rest = err raised
ok value >>= rest = rest value

abbrev pub ◌>>◌ {ℓ} : {R : Type ℓ} → Result (Unit {0}) → Result R → Result R
call >> rest = call >>= λ _. rest

-- `except OSError`
abbrev pub is_os_error : Error → Bool
is_os_error os_error = true
is_os_error permission_error = true
is_os_error file_not_found = true
is_os_error (value_error s) = false
is_os_error (runtime_error s) = false
is_os_error superseded = false
is_os_error timeout_expired = false
is_os_error type_error = false

-- Where the whole returns, the call before it does.
pub >>=-eq-ok {ℓ κ} :
    {V : Type ℓ} {R : Type κ} (call : Result V) (rest : V → Result R) {out : R}
    → (call >>= rest) ≡ ok out
    → (value : V) × (call ≡ ok value) × (rest value ≡ ok out)
>>=-eq-ok (err raised) rest h = cc
>>=-eq-ok (ok value) rest h = (value, refl, h)

-- A check that lets pass did not find its fault.
pub raise_if-eq-ok : (b : Bool) (e : Error) (u : Unit {0}) → raise_if b e ≡ ok u → b ≡ false
raise_if-eq-ok true e u h = cc
raise_if-eq-ok false e u h = refl
