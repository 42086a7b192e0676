-- ===== src/BtreeMap/Entry.antt =====
-- `*map.entry(key).or_insert(0) += amount`, on a map from public keys to `i64`.
use stegos.Prelude.{ℕ, Option, none, some}
use stegos.Prelude.Int.{ℤ, pos, ◌+i64◌}
use stegos.Prelude.Order.{nat_ord}
use stegos.BtreeMap.{BtreeMap, lookup, insert}
use stegos.Crypto.{PublicKey}

abbrev pub value_or_zero : Option ℤ → ℤ
value_or_zero none = pos 0
value_or_zero (some amount) = amount

abbrev pub add_entry : PublicKey → ℤ → BtreeMap PublicKey ℤ → BtreeMap PublicKey ℤ
add_entry key amount m = insert key (value_or_zero (lookup key m) +i64 amount) m

abbrev pub or_zero : Option ℕ → ℕ
or_zero none = 0
or_zero (some n) = n
