-- ===== src/Sale.antt =====
-- One sku on sale: every atomic step that concurrent calls of internal/order, internal/inventory and
-- cmd/worker make on its stock and on the reservations of its orders. A script and a command of Redis
-- are one step each; the calls of any number of processes interleave as they like.
pub mod Balance
pub mod Runs
pub mod Places
pub mod Handled
pub mod Timeouts
use openwar.Common.{
  ℕ, suc, ◌+◌, ◌<◌, ◌≡◌, ◌≢◌, Bool, true, false, Option, none, some, List, [], ◌∷◌, if◌then◌else◌,
}
use openwar.Common.Int.{pos}
use openwar.Common.Text.{Text, codes, text_eq}
use openwar.Redis.{Redis, Value, text_of}
use openwar.Lua.{reserve_stock, release_stock}
use openwar.Inventory.Keys.{inventory_key, reservation_key}
use openwar.Store.{any_text}

-- Whether a reservation's key says RESERVED.
abbrev pub says_reserved : Option Text → Bool
says_reserved none = false
says_reserved (some st) = text_eq st (codes "RESERVED")

module _ (R : Redis) where
  -- The server, the units that some call has taken and not yet entered in a reservation, and the
  -- orders whose reservation was written.
  pub record System : Type 0 where
    pub db : R.Db
    pub held : ℕ
    pub marked : List Text

  abbrev pub sys : R.Db → ℕ → List Text → System
  sys d h m = record { db = d; held = h; marked = m }

  -- The units that are in reservations.
  abbrev pub reserved_units : R.Db → List Text → ℕ
  reserved_units d [] = 0
  reserved_units d (id ∷ ids) =
      (if says_reserved (text_of (R.look d (reservation_key id))) then 1 else 0)
      + reserved_units d ids

  -- The steps: a probe takes a unit, or its caller sees none; a unit in hand is entered in a new
  -- reservation; a reservation is compensated, or by the one who has a unit in hand for it; a
  -- reservation is published, or expires; or something else in Redis changes.
  pub data Step (sku : Text) (shards : ℕ) (s t : System) : Type 0 where
    take :
        (i : ℕ)
        → i < shards
        → (reserve_stock R (inventory_key sku i) s.db).0.0 ≡ pos 1
        → t ≡ sys (reserve_stock R (inventory_key sku i) s.db).1 (suc s.held) s.marked
        → Step sku shards s t
    miss :
        (i : ℕ)
        → i < shards
        → t ≡ sys (reserve_stock R (inventory_key sku i) s.db).1 s.held s.marked
        → Step sku shards s t
    enter :
        (id : Text) (n ttl : ℕ)
        → s.held ≡ suc n
        → any_text id s.marked ≡ false
        → t ≡ sys (R.set s.db (reservation_key id) (codes "RESERVED") ttl) n (id ∷ s.marked)
        → Step sku shards s t
    compensate_marked :
        (id : Text) (i : ℕ)
        → i < shards
        → any_text id s.marked ≡ true
        → t
          ≡ sys (release_stock R (reservation_key id) (inventory_key sku i) s.db).1 s.held s.marked
        → Step sku shards s t
    compensate_held :
        (id : Text) (i n : ℕ)
        → i < shards
        → s.held ≡ suc n
        → t ≡ sys (release_stock R (reservation_key id) (inventory_key sku i) s.db).1 n s.marked
        → Step sku shards s t
    retire :
        (id : Text) (d : R.Db)
        → says_reserved (text_of (R.look d (reservation_key id))) ≡ false
        → ((k : Text) → text_eq (reservation_key id) k ≡ false → R.look d k ≡ R.look s.db k)
        → t ≡ sys d s.held s.marked
        → Step sku shards s t
    other :
        (d : R.Db)
        → ((i : ℕ)
            → i < shards
            → R.look d (inventory_key sku i) ≡ R.look s.db (inventory_key sku i))
        → ((id : Text)
            → any_text id s.marked ≡ true
            → R.look d (reservation_key id) ≡ R.look s.db (reservation_key id))
        → t ≡ sys d s.held s.marked
        → Step sku shards s t

  pub data Reach (sku : Text) (shards : ℕ) (s : System) : System → Type 0 where
    here : Reach sku shards s s
    next : {t u : System} → Reach sku shards s t → Step sku shards t u → Reach sku shards s u
