-- ===== src/Tests/Store.antt =====
-- A table with one pending order.
use openwar.Common.{[], ◌∷◌}
use openwar.Common.Text.{codes}
use openwar.Store.{Row, Tables, NewOrder, pending}
use openwar.Tests.Fixtures.{tea, ada, bob}

abbrev first_row : Row
first_row = record {
  order_id = codes "ord-1";
  user_id = ada;
  event_id = codes "sale";
  sku = tea;
  qty = 1;
  status = pending;
  expires = 500;
  created = 100;
  version = 1;
}

abbrev pub tables : Tables
tables = record { users = ada ∷ bob ∷ []; products = tea ∷ []; orders = first_row ∷ [] }

abbrev bobs : NewOrder
bobs = record {
  order_id = codes "ord-2";
  user_id = bob;
  event_id = codes "sale";
  sku = tea;
  qty = 1;
  status = pending;
  expires = 600;
}
