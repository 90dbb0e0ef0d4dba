-- ===== src/Tests/Fixtures.antt =====
-- A product with five units on two shards, and trips that succeed.
use openwar.Common.{◌≡◌, arith}
use openwar.Common.Text.{Text, codes}
use openwar.Breaker.{Config, new_config, default_config}
use openwar.Redis.{Value, fine, absent}
use openwar.Redis.Memory.{memory, memory-IsLawful, empty}
use openwar.Inventory.{Trip}
use openwar.Inventory.Counts.{IsStocked}
use openwar.Inventory.Keys.{soldout_key}
use openwar.Seeder.{seed_partitioned_stock}
use openwar.Seeder.Split.{seed_partitioned_stock_lem}

abbrev pub tea : Text
tea = codes "tea:green"

abbrev pub ada : Text
ada = codes "ada"

abbrev pub bob : Text
bob = codes "bob"

abbrev pub limits : Config
limits = new_config default_config

abbrev pub steady : Trip
steady = record { net = fine; start = 10; stop = 20 }

abbrev pub shop : Text → Value
shop = (seed_partitioned_stock memory fine fine tea 5 2 empty).1

pub shop-IsStocked : IsStocked memory shop tea 2
shop-IsStocked = (seed_partitioned_stock_lem memory memory-IsLawful tea 5 2 empty (omega arith)).1

pub shop-clear : shop (soldout_key tea) ≡ absent
shop-clear = (seed_partitioned_stock_lem memory memory-IsLawful tea 5 2 empty (omega arith)).3
