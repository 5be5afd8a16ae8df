-- ===== src/CString/Tests.antt =====
-- Runs of the decimal output.
use naw_os.Base.{◌≡◌, arith}
use naw_os.CString.{naw_atoi}
use naw_os.CString.Decimal.{itoa, naw_atoi-itoa}

-- -42
naw_atoi-itoa_example : naw_atoi (itoa 4294967254) ≡ 4294967254
naw_atoi-itoa_example = naw_atoi-itoa 4294967254 (omega arith) (λ e. omega arith)
