-- ===== src/Base/Tables.antt =====
-- Facts on small numbers as tables that are checked by evaluation.
use Prim.Native.Nat.{ℕ, zero, suc, ◌<◌}
use mathlib.Core.Path.{◌≡◌}
use mathlib.Core.Bool.{Bool, true, false}
use native.Mathlib.Omega.{arith}
use visage_dvachevsky_tempre.Base.Tests.{if◌then◌else◌}

-- Whether a test holds of each of the first numbers.
unfoldable pub table : (ℕ → Bool) → ℕ → Bool
table t zero = true
table t (suc size) = if t size then table t size else false

pub table_entry : (t : ℕ → Bool) (size i : ℕ) → i < size → table t size ≡ true → t i ≡ true
unfolding table
table_entry t zero i less checked = absurd (omega arith)
table_entry t (suc size) i less checked = ground (arith, table_entry t size i, less, checked)
