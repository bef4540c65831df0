-- ===== src/Examples/Lmdb.antt =====
-- The classification of errors, and sizes, at concrete values.
use rpi4_usb_io_breaker.Base.{ℕ, true, [], none, ◌≡◌, ◌⊎◌, arith, ◌*◌}
use rpi4_usb_io_breaker.Core.Error.{Error, ok, err, fatal_error, internal_error, other_kind}
use rpi4_usb_io_breaker.Lmdb.Errors.{
  IoError, map_full, process_with_unit, process_with_none, process_with_err,
}
use rpi4_usb_io_breaker.Lmdb.Errors.Reports.{Among, benign, Reports, process-Reports}
use rpi4_usb_io_breaker.Lmdb.MemSize.{from_megabytes, from_bytes, from_megabytes_exact}

abbrev io_error : IoError
io_error = record { kind = other_kind 5; text = [] }

process-Reports_example :
    (Among map_full benign
      × (process_with_unit (λ _. []) (λ _. io_error) io_error (λ _ _. true) map_full ≡ ok tt)
      × (process_with_none (λ _. []) (λ _. io_error) io_error (λ _ _. true) {T = ℕ} map_full
          ≡ ok none)
      × (process_with_err (λ _. []) (λ _. io_error) io_error (λ _ _. true) {T = ℕ} map_full
          ≡ err (fatal_error (internal_error []))))
    ⊎ ((x : Error) × Reports (λ _. []) (λ _. io_error) io_error (λ _ _. true) map_full x
        × (process_with_unit (λ _. []) (λ _. io_error) io_error (λ _ _. true) map_full ≡ err x)
        × (process_with_none (λ _. []) (λ _. io_error) io_error (λ _ _. true) {T = ℕ} map_full
            ≡ err x)
        × (process_with_err (λ _. []) (λ _. io_error) io_error (λ _ _. true) {T = ℕ} map_full
            ≡ err x))
process-Reports_example = process-Reports (λ _. []) (λ _. io_error) io_error (λ _ _. true) map_full

from_megabytes_exact_example : from_megabytes true 16 ≡ ok (from_bytes (1048576 * 16))
from_megabytes_exact_example = from_megabytes_exact true 16 (omega arith)
