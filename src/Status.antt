-- ===== src/Status.antt =====
-- The `int` result of most internal functions: 0, or -1 with errno set.
use mathlib.Core.Path.{◌≡◌, refl}
use mathlib.Core.Logic.{◌⊎◌, inl, inr}

pub data Status : Type 0 where
  ok failed : Status

pub Status-cases : (r : Status) → (r ≡ ok) ⊎ (r ≡ failed)
Status-cases ok = inl refl
Status-cases failed = inr refl
