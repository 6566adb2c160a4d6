-- ===== src/Crypto/Sample.antt =====
-- A toy cipher, which meets the law of `Cipher`: it marks each text.
use Prim.Native.String
use text.Mathlib.Text.{starts_with}
use text.Mathlib.TextPositions.{slice-append_right, len-append, starts_with-append}
use coparentes_backend.Common.{◌≡◌, ap, Option, none, some, String, str_eq, false, if◌then◌else◌}
use coparentes_backend.Crypto.{KeyName, Cipher}

abbrev toy_unseal : String → Option String
toy_unseal y = if starts_with y "!" then some (String.slice y 1 (String.len y)) else none

pub toy_unseal-seal :
    (k : KeyName) (x : String) → str_eq x "" ≡ false → toy_unseal (String.◌++◌ "!" x) ≡ some x
toy_unseal-seal k x full =
    rw (starts_with-append "!" x) (rw (len-append "!" x) (ap some (slice-append_right "!" x)))

abbrev pub toy_cipher : Cipher
toy_cipher = record {
  seal = λ k x. String.◌++◌ "!" x;
  unseal = toy_unseal;
  unseal-seal = toy_unseal-seal;
}
