-- ===== src/Order/Ids.antt =====
-- internal/order/service.go: `genOrderID`. The bytes that `rand.Read` gives and `hex.EncodeToString` are
-- parameters.
use openwar.Common.{ℕ, Option, none, some, List, ◌++◌, take, if◌then◌else◌}
use openwar.Common.Text.{Text, codes, is_empty}
use openwar.Common.Text.Decimal.{decimal}

-- The order id of a request with this request id, empty if it has none: the clock, in nanoseconds, stands
-- in for random bytes that cannot be read, and a request id leaves room for four of the sixteen.
unfoldable pub gen_order_id : (List ℕ → Text) → Option (List ℕ) → ℕ → Text → Text
gen_order_id hex none now request_id = codes "ord-" ++ decimal now
gen_order_id hex (some bytes) now request_id =
    if is_empty request_id
    then codes "ord-" ++ hex bytes
    else codes "ord-" ++ request_id ++ codes "-" ++ hex (take 4 bytes)
