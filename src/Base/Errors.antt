-- ===== src/Base/Errors.antt =====
-- The exceptions of the Python code, one constructor for each class that the modelled code raises
-- or catches, and a computation that may raise one.
use mathlib.Core.Path.{◌≡◌, refl}
use Prim.Native.String.{String}
use mathlib.Core.List.{List}
use mathlib.Core.Bool.{Bool, true, false}
use mathlib.Core.Option.{Option, none, some}
use native.Mathlib.Omega.{arith}

pub data Error : Type 0 where
  key_error index_error name_error value_error type_error runtime_error os_error attribute_error :
      Error
  disk_file_error disk_file_not_exist disk_file_not_open disk_file_quarantined : Error
  disk_file_device_unavailable disk_file_bad_metadata_checksum state_error changed_error
        conflict_error invalid_argument :
      Error
  disk_file_collision disk_file_xattr_not_supported path_not_dir_error : Error
  -- with the metadata of the object
  disk_file_expired : List (String × String) → Error
  -- with the metadata of the tombstone
  disk_file_deleted : List (String × String) → Error

pub data Result {ℓ} (A : Type ℓ) : Type ℓ where
  ok : A → Result A
  raise : Error → Result A

-- A value that must be there: `d[key]`, or a parse that succeeds.
abbrev pub expect {ℓ} : {A : Type ℓ} → Error → Option A → Result A
expect e none = raise e
expect e (some x) = ok x

-- `if not test: raise e`
abbrev pub guard : Bool → Error → Result (Unit {0})
guard test e = elim test [ true ↦ ok tt | false ↦ raise e ]

infixl 5 ◌>>=◌ ◌>>◌
abbrev pub ◌>>=◌ {κ ℓ} : {A : Type κ} {B : Type ℓ} → Result A → (A → Result B) → Result B
raise e >>= k = raise e
ok x >>= k = k x

abbrev pub ◌>>◌ {ℓ} : {B : Type ℓ} → Result (Unit {0}) → Result B → Result B
step >> rest = step >>= λ done. rest

-- What a chain that succeeds has gone through.
pub >>=-eq-ok {κ ℓ} :
    {A : Type κ} {B : Type ℓ} (m : Result A) (k : A → Result B) {y : B}
    → (m >>= k) ≡ ok y
    → (x : A) × (m ≡ ok x) × (k x ≡ ok y)
>>=-eq-ok (raise e) k h = absurd (ground arith)
>>=-eq-ok (ok x) k h = (x, refl, h)
