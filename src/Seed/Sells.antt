-- ===== src/Seed/Sells.antt =====
-- What a seeded catalog accepts.
use openwar.Common.{
  ℕ, zero, suc, ◌+◌, ◌≤◌, ◌<◌, ◌≡◌, refl, true, Bool-cases, inl, inr, some, List, [], ◌∷◌, dec_lt,
  arith,
}
use openwar.Common.Text.{Text, text_eq, text_eq_self}
use openwar.Redis.{fine, call}
use openwar.Store.{NewOrder, any_text, inserted, insert_order, has_order, has_user_event}
use openwar.Seed.{
  Product, Catalog, ids, skus, tables_of, put_user, upsert_user, put_product, get_product, user_id,
  demo_user, seed_users, CatalogRun, ticket, demo_users, seed_product, seed_catalog,
}
use openwar.Seed.Owners.{IsOwned, put_user-IsOwned, put_user_self, put_user_keeps}

-- What the loop over the users does to a catalog.
record IsSeeded (left i : ℕ) (s t : Catalog) : Type 0 where
  has : (k : ℕ) → i ≤ k → k < i + left → any_text (user_id k) (ids t.users) ≡ true
  keeps : (k : Text) → any_text k (ids s.users) ≡ true → any_text k (ids t.users) ≡ true
  same_products : t.products ≡ s.products
  same_orders : t.orders ≡ s.orders

seed_users-IsSeeded :
    (left i : ℕ) (s : Catalog)
    → IsOwned s.users
    → (t : Catalog) × (seed_users (λ n. fine) left i s ≡ (true, t)) × IsSeeded left i s t
unfolding seed_users call upsert_user
seed_users-IsSeeded zero i s own = (
  s,
  refl,
  record {
    has = λ k low high. absurd (omega (arith, low, high));
    keeps = λ k p. p;
    same_products = refl;
    same_orders = refl;
  },
)
seed_users-IsSeeded (suc left) i s own =
    let u = demo_user i in
    let s1 : Catalog = record s { users = put_user u s.users } in
    let (t, e, y) =
      seed_users-IsSeeded left (suc i) s1 (put_user-IsOwned u.id u.full_name s.users own) in
    (
      t,
      rw (own u.id) e,
      record {
        has = λ k low high. elim (dec_lt i k) [
          | yes lt ↦ y.has k (omega (arith, lt)) (omega (arith, high))
          | no ge ↦
              let q : k ≡ i = omega (arith, low, ge) in
              rw q (y.keeps u.id (put_user_self u s.users))
        ];
        keeps = λ k p. y.keeps k (put_user_keeps k u s.users p);
        same_products = y.same_products;
        same_orders = y.same_orders;
      },
    )

get_product-put_product :
    (p : Product) (ps : List Product) → get_product p.sku (put_product p ps) ≡ some p
unfolding get_product put_product
get_product-put_product p [] = rw (text_eq_self p.sku) refl
get_product-put_product p (q ∷ ps) = elim (Bool-cases (text_eq q.sku p.sku)) [
  | inl y ↦ rw y (rw (text_eq_self p.sku) refl)
  | inr n ↦ rw n (rw n (get_product-put_product p ps))
]

put_product_self :
    (p : Product) (ps : List Product) → any_text p.sku (skus (put_product p ps)) ≡ true
unfolding put_product any_text
put_product_self p [] = ground (arith, text_eq_self p.sku)
put_product_self p (q ∷ ps) = elim (Bool-cases (text_eq q.sku p.sku)) [
  | inl y ↦ rw y (ground (arith, text_eq_self p.sku))
  | inr n ↦ rw n (ground (arith, put_product_self p ps))
]

-- A run of the seed command on which nothing fails.
abbrev pub all_seeded : CatalogRun
all_seeded = record { opened = true; clear = fine; upsert = fine; each_user = λ n. fine }

-- A demo user of a seeded catalog can order the ticket.
pub seed_catalog_sells :
    (event sku : Text) (qty shards : ℕ) (s : Catalog) (i now : ℕ) (o : NewOrder)
    → IsOwned s.users
    → 1 ≤ i
    → i ≤ demo_users
    → o.user_id ≡ user_id i
    → o.sku ≡ sku
    → (t : Catalog) × (seed_catalog all_seeded event sku qty shards s ≡ (true, t))
      × (get_product sku t.products ≡ some (ticket event sku qty shards))
      × ((insert_order now o (tables_of t)).0 ≡ inserted)
unfolding seed_catalog seed_product call insert_order has_order has_user_event
seed_catalog_sells event sku qty shards s i now o own low high user prod =
    let p = ticket event sku qty shards in
    let s1 : Catalog = record s { orders = []; products = put_product p s.products } in
    let (t, e, y) = seed_users-IsSeeded demo_users 1 s1 own in
    (
      t,
      e,
      rw y.same_products (get_product-put_product p s.products),
      rw
          (
            y.same_orders,
            user,
            prod,
            y.has i low (omega (arith, high)),
            y.same_products,
            put_product_self p s.products,
          )
          refl,
    )
