-- ===== src/Tests/Checkout.antt =====
-- A purchase through the proxy, and checkouts while Redis is away.
use openwar.Common.{ℕ, suc, ◌<◌, ◌==◌, ◌||◌, ◌≡◌, refl, arith, some, none, [], ◌++◌, if◌then◌else◌}
use openwar.Common.Int.{pos}
use openwar.Common.Text.{codes, text_eq}
use openwar.Breaker.{Breaker, new_breaker, new_config, open_state}
use openwar.Redis.{Net, lost, fine}
use openwar.Redis.Memory.{memory, memory-IsLawful}
use openwar.Inventory.{Trip, sold_out, reserve}
use openwar.Inventory.Counts.{total}
use openwar.Inventory.Latch.{outage_latches}
use openwar.Order.{World, acked}
use openwar.Gateway.{Request, answered}
use openwar.Checkout.{Headers, Incoming, PlaceRequest, checkout_error, checkout_order}
use openwar.Checkout.Purchase.{purchase, purchase-user}
use openwar.Checkout.Outage.{refused-sold_out}
use openwar.Tests.Fixtures.{tea, ada, bob, limits, steady, shop, shop-clear}
use openwar.Tests.Order.{world, run_over}

-- The client claims to be bob.
abbrev forged : Headers
forged k = if text_eq k (codes "X-User-ID") then bob else []

abbrev coming_in : Incoming
coming_in = record {
  host = codes "gateway";
  remote_addr = codes "10.0.0.1:9";
  tls = none;
  headers = forged;
  user = [];
  session = codes "s-1";
}

abbrev bearer : Request
bearer = record {
  authorization = codes "Bearer " ++ codes "t";
  path_event = [];
  path_id = codes "sale";
  session = codes "s-1";
  user = [];
}

abbrev wanted : PlaceRequest
wanted = record { sku = tea; qty = pos 1 }

purchase-user_example :
    let x = checkout_order memory limits 2 900 (run_over acked fine) ada wanted world in
    (purchase memory limits 2 900
        (λ t. some ada)
        (λ h. h)
        (run_over acked fine)
        coming_in
        (some wanted)
        bearer
        world
      ≡ (answered x.0, x.1))
    × (purchase memory limits 2 900
          (λ t. some ada)
          (λ h. h)
          (run_over acked fine)
          coming_in
          none
          bearer
          world
        ≡ (answered (checkout_error 400), world))
purchase-user_example =
    purchase-user memory limits 2 900 (λ t. some ada) (λ h. h) (run_over acked fine) coming_in
      bearer (codes "t") ada wanted world refl refl refl refl

abbrev tripped : Breaker
tripped = record { state = open_state; failures = 5; successes = 0; last_failed_at = 9 }

abbrev tripped_world : World memory
tripped_world = record world { redis_cb = tripped }

refused-sold_out_example :
    checkout_order memory limits 2 900 (run_over acked fine) ada wanted tripped_world
    ≡ (checkout_error 410, tripped_world)
unfolding new_config
refused-sold_out_example =
    refused-sold_out memory limits 2 900 (run_over acked fine) ada wanted tripped_world
      (omega arith) (refl, omega arith) (refl, omega arith)

-- The trips to the two shards are lost, those to the latch are not.
abbrev if_away : ℕ → Net
if_away n = if n == 1 || n == 2 then lost else fine

abbrev away : ℕ → Trip
away n = record { net = if_away n; start = 10; stop = 20 }

away_lost : (n : ℕ) → n < 2 → if_away (suc n) ≡ lost
away_lost n h = ground arith

outage_latches_example :
    let x = reserve memory limits away tea ada 2 new_breaker shop in
    (x.0 ≡ sold_out)
    × (total memory x.2 tea 2 ≡ total memory shop tea 2)
    × ((reserve memory limits (λ n. steady) tea bob 2 x.1 x.2).0 ≡ sold_out)
unfolding new_config
outage_latches_example =
    outage_latches memory limits away tea 2 away_lost memory-IsLawful ada bob (λ n. steady)
      new_breaker shop refl refl refl shop-clear (omega arith) refl
