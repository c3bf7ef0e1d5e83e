-- ===== src/Tests/WantPool.antt =====
-- The want pool of fetch.go with a hundred tokens, ten of them in use.
use vidya_god_ipfs.Prelude.{◌+◌, ◌-◌, ◌≡◌, arith, min, max}
use vidya_god_ipfs.WantPool.{WantPool, want_floor, new_want_pool, unparked, set_limit}
use vidya_god_ipfs.WantPool.Tokens.{IsPool, set_limit-lem}

abbrev ten_used : WantPool
ten_used = record (new_want_pool 100) { tokens = 90 }

set_limit-lem_example :
    (q : WantPool) × (set_limit 40 ten_used ≡ unparked q)
    × IsPool 10 q
    × (q.size ≡ ten_used.size)
    × (q.parked ≡ min (ten_used.size - max want_floor 40) (ten_used.parked + ten_used.tokens))
    × (q.limit ≡ q.size - q.parked)
set_limit-lem_example = set_limit-lem 10 40 ten_used (record { all = omega arith })
