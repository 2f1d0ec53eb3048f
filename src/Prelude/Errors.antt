-- ===== src/Prelude/Errors.antt =====
-- Results that may be an error, whose text is what `err.Error()` gives.
use Prim.Native.String.{String}

pub data Result {ℓ} (A : Type ℓ) : Type ℓ where
  ok : A → Result A
  err : String → Result A
