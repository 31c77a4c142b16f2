-- ===== src/Base/Outcome.antt =====
-- A Go value with its `error`: of the two results one is used.
use Prim.Native.String.{String, ◌++◌ as ◌<>◌}
use mathlib.Core.Bool.{Bool, true, false}
use mathlib.Core.Path.{◌≡◌, refl}
use mathlib.Core.Logic.{◌⊎◌, inl, inr}

-- The reasons that the source tells apart by `errors.IsNotFound`, `IsInvalid`, `IsForbidden` and
-- `os.IsNotExist`.
pub data Reason : Type 0 where
  not_found invalid forbidden not_exist unknown : Reason

pub record Error : Type 0 where
  pub reason : Reason
  pub message : String

pub data Result {ℓ} (A : Type ℓ) : Type ℓ where
  ok : A → Result A
  err : Error → Result A

-- `fmt.Errorf("…")`.
abbrev pub errorf : String → Error
errorf message = record { reason = Reason.unknown; message = message }

-- `fmt.Errorf("prefix: %w", err)`, which keeps what the error wraps.
abbrev pub wrap : String → Error → Error
wrap prefix e = record e { message = prefix <> (": " <> e.message) }

abbrev pub is_not_found : Error → Bool
is_not_found e = elim e.reason [ Reason.not_found ↦ true | _ ↦ false ]

pub Result-cases {ℓ} :
    {A : Type ℓ} (r : Result A) → ((e : Error) × (r ≡ err e)) ⊎ ((a : A) × (r ≡ ok a))
Result-cases (ok a) = inr (a, refl)
Result-cases (err e) = inl (e, refl)
