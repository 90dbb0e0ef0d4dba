-- ===== src/Inventory/Keys.antt =====
-- The keys that inventory and orders use, as `fmt.Sprintf` and `+` build them, and which differ.
use openwar.Common.{ℕ, ◌≡◌, ◌≢◌, refl, false, ◌++◌}
use openwar.Common.Text.{Text, codes, text_eq, text_eq_ne, append_cancel}
use openwar.Common.Text.Decimal.{decimal, decimal-injective}

-- `inventory:%s:shard:%d`
unfoldable pub inventory_key : Text → ℕ → Text
inventory_key sku i = codes "inventory:" ++ (sku ++ (codes ":shard:" ++ decimal i))

unfoldable pub soldout_key : Text → Text
soldout_key sku = codes "soldout:" ++ sku

unfoldable pub reservation_key : Text → Text
reservation_key order = codes "reservation:" ++ order

unfoldable pub cancel_key : Text → Text
cancel_key order = codes "cancel:" ++ order

pub inventory_key-injective :
    (sku : Text) (i j : ℕ) → inventory_key sku i ≡ inventory_key sku j → i ≡ j
unfolding inventory_key
inventory_key-injective sku i j e = decimal-injective i j (
    append_cancel (codes ":shard:") _ _
      (append_cancel sku _ _ (append_cancel (codes "inventory:") _ _ e)))

pub inventory_key_ne :
    (sku : Text) (i j : ℕ) → i ≢ j → text_eq (inventory_key sku i) (inventory_key sku j) ≡ false
inventory_key_ne sku i j h = text_eq_ne _ _ (λ e. h (inventory_key-injective sku i j e))

-- Keys of different families differ in their first byte.
pub soldout-inventory : (s t : Text) (i : ℕ) → text_eq (soldout_key s) (inventory_key t i) ≡ false
unfolding text_eq inventory_key soldout_key reservation_key
soldout-inventory s t i = refl

pub inventory-soldout : (s t : Text) (i : ℕ) → text_eq (inventory_key t i) (soldout_key s) ≡ false
unfolding text_eq inventory_key soldout_key reservation_key
inventory-soldout s t i = refl

pub reservation-inventory :
    (o t : Text) (i : ℕ) → text_eq (reservation_key o) (inventory_key t i) ≡ false
unfolding text_eq inventory_key soldout_key reservation_key
reservation-inventory o t i = refl

pub inventory-reservation :
    (o t : Text) (i : ℕ) → text_eq (inventory_key t i) (reservation_key o) ≡ false
unfolding text_eq inventory_key soldout_key reservation_key
inventory-reservation o t i = refl

pub soldout-reservation : (s o : Text) → text_eq (soldout_key s) (reservation_key o) ≡ false
unfolding text_eq inventory_key soldout_key reservation_key
soldout-reservation s o = refl

-- The guard's key differs from the keys of the other families.
pub cancel_ne :
    (o t : Text) (i : ℕ)
    → (text_eq (inventory_key t i) (cancel_key o) ≡ false)
      × (text_eq (cancel_key o) (inventory_key t i) ≡ false)
      × (text_eq (reservation_key t) (cancel_key o) ≡ false)
      × (text_eq (cancel_key o) (reservation_key t) ≡ false)
      × (text_eq (soldout_key t) (cancel_key o) ≡ false)
unfolding text_eq inventory_key soldout_key reservation_key cancel_key
cancel_ne o t i = (refl, refl, refl, refl, refl)
