-- ===== src/Base/Int.antt =====
-- Signed integers over the native numbers.
use Prim.Native.Nat.{ℕ, suc}
use mathlib.Core.List.{◌∷◌}
use package.client_rust_test.Base.Order.{Bytes}
use package.client_rust_test.Base.Text.{decimal}

pub data ℤ : Type 0 where
  pos : ℕ → ℤ
  -- `negsuc n` is -(n + 1).
  negsuc : ℕ → ℤ

-- `{n}` of an `i32`, whose minus sign is byte 45
abbrev pub show_int : ℤ → Bytes
show_int (pos n) = decimal n
show_int (negsuc n) = 45 ∷ decimal (suc n)
