-- ===== src/Core/Status.antt =====
-- core/include/collapsar/error.hpp and result.hpp.
use collapsar.Base.{Bool, true, false, Bytes, text, []}

pub data StatusCode : Type 0 where
  ok_status cancelled invalid_argument not_found permission_denied io : StatusCode
  out_of_memory cuda_error nvcomp_error codec_error format_error unsupported internal : StatusCode

unfoldable pub to_string : StatusCode → Bytes
to_string ok_status = text "Ok"
to_string cancelled = text "Cancelled"
to_string invalid_argument = text "InvalidArgument"
to_string not_found = text "NotFound"
to_string permission_denied = text "PermissionDenied"
to_string io = text "Io"
to_string out_of_memory = text "OutOfMemory"
to_string cuda_error = text "CudaError"
to_string nvcomp_error = text "NvcompError"
to_string codec_error = text "CodecError"
to_string format_error = text "FormatError"
to_string unsupported = text "Unsupported"
to_string internal = text "Internal"

pub record Error : Type 0 where
  pub code : StatusCode
  pub message : Bytes

abbrev pub make_error : StatusCode → Bytes → Error
make_error code message = record { code = code; message = message }

-- A default-constructed `Error`.
abbrev pub no_error : Error
no_error = record { code = ok_status; message = [] }

abbrev pub is_ok : StatusCode → Bool
is_ok ok_status = true
is_ok _ = false

-- `Result<T>` is the tagged union; `Result<void>` is `Result Unit`.
pub data Result {ℓ} (A : Type ℓ) : Type ℓ where
  ok : A → Result A
  err : Error → Result A

-- The status code that a result stands for.
abbrev pub code_of {ℓ} : {A : Type ℓ} → Result A → StatusCode
code_of (ok a) = ok_status
code_of (err e) = e.code
