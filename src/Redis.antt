-- ===== src/Redis.antt =====
-- The Redis server as the program relies on it: an interface. The documented effect of each command
-- is a law about `look`, which is what the reading commands (GET, EXISTS, HMGET, ZRANK, ZCARD)
-- report of a key. A key that has expired is absent.
pub mod Memory
use openwar.Common.{
  ℕ, suc, ◌<◌, ◌==◌, ◌≡◌, refl, ◌⊎◌, inl, inr, Bool, true, false, ◌||◌, ◌&&◌, Option, none, some,
  List, [], ◌∷◌, ltb, if◌then◌else◌,
}
use openwar.Common.Int.{ℤ, pos, negsuc, ◌+ℤ◌}
use openwar.Common.Text.{Text, text_eq, text_lt}

-- A member of a sorted set with its score.
pub record Entry : Type 0 where
  pub score : ℕ
  pub member : Text

pub data Value : Type 0 where
  absent : Value
  str : Text → Value
  num : ℤ → Value
  zset : List Entry → Value
  hash : (Text → Option Text) → Value

-- A sorted set is kept by score, and by member where scores are equal.
abbrev pub entry_lt : Entry → Entry → Bool
entry_lt a b = ltb a.score b.score || (a.score == b.score && text_lt a.member b.member)

unfoldable pub insert_entry : Entry → List Entry → List Entry
insert_entry e [] = e ∷ []
insert_entry e (x ∷ xs) = if entry_lt e x then e ∷ x ∷ xs else x ∷ insert_entry e xs

unfoldable pub rank_from : ℕ → Text → List Entry → Option ℕ
rank_from n m [] = none
rank_from n m (x ∷ xs) = if text_eq x.member m then some n else rank_from (suc n) m xs

-- ZRANK of a member.
abbrev pub rank : Text → List Entry → Option ℕ
rank = rank_from 0

-- What ZADD NX leaves of a set: a member that is there keeps its score.
unfoldable pub add_entry : Entry → List Entry → List Entry
unfolding rank_from insert_entry
add_entry e xs = elim (rank e.member xs) [ none ↦ insert_entry e xs | some i ↦ xs ]

abbrev pub entries_of : Value → List Entry
entries_of (zset xs) = xs
entries_of _ = []

abbrev pub rest_of : List Entry → List Entry
rest_of [] = []
rest_of (x ∷ xs) = xs

-- A sorted set that loses its last member is gone.
abbrev pub zset_value : List Entry → Value
zset_value [] = absent
zset_value (x ∷ xs) = zset (x ∷ xs)

abbrev pub fields_of : Value → Text → Option Text
fields_of (hash f) = f
fields_of _ = λ k. none

abbrev pub update : (Text → Option Text) → Text → Text → Text → Option Text
update f k v j = if text_eq k j then some v else f j

-- SET NX writes only where there is nothing.
abbrev pub set_missing : Text → Value → Value
set_missing t absent = str t
set_missing t v = v

-- INCR and DECR take a missing key for 0, and refuse what is no number.
abbrev pub add_value : ℤ → Value → Value
add_value i absent = num i
add_value i (num n) = num (n +ℤ i)
add_value i v = v

-- ZADD NX on a key that holds something else is refused.
abbrev pub add_to : Entry → Value → Value
add_to e (zset xs) = zset (add_entry e xs)
add_to e absent = zset (e ∷ [])
add_to e v = v

abbrev pub pop_from : Value → Value
pop_from (zset xs) = zset_value (rest_of xs)
pop_from v = v

abbrev pub hset_value : Text → Text → Value → Value
hset_value k v (hash f) = hash (update f k v)
hset_value k v absent = hash (update (λ j. none) k v)
hset_value k v other = other

-- The writing commands; times to live are nanoseconds, 0 for none.
pub record Redis : Type 1 where
  pub Db : Type 0
  pub look : Db → Text → Value
  pub set : Db → Text → Text → ℕ → Db
  pub set_nx : Db → Text → Text → ℕ → Db
  pub set_int : Db → Text → ℤ → Db
  pub del : Db → Text → Db
  pub incr : Db → Text → Db
  pub decr : Db → Text → Db
  pub zadd_nx : Db → Text → ℕ → Text → Db
  pub zpopmin : Db → Text → Db
  pub hset : Db → Text → Text → Text → Db
  pub expire : Db → Text → ℕ → Db

-- Each command changes its own key as documented, and no other.
pub record IsLawful (R : Redis) : Type 0 where
  pub look-set :
      (d : R.Db) (k v : Text) (ttl : ℕ) (j : Text)
      → R.look (R.set d k v ttl) j ≡ (if text_eq k j then str v else R.look d j)
  pub look-set_nx :
      (d : R.Db) (k v : Text) (ttl : ℕ) (j : Text)
      → R.look (R.set_nx d k v ttl) j
        ≡ (if text_eq k j then set_missing v (R.look d k) else R.look d j)
  pub look-set_int :
      (d : R.Db) (k : Text) (n : ℤ) (j : Text)
      → R.look (R.set_int d k n) j ≡ (if text_eq k j then num n else R.look d j)
  pub look-del :
      (d : R.Db) (k j : Text) → R.look (R.del d k) j ≡ (if text_eq k j then absent else R.look d j)
  pub look-incr :
      (d : R.Db) (k j : Text)
      → R.look (R.incr d k) j ≡ (if text_eq k j then add_value (pos 1) (R.look d k) else R.look d j)
  pub look-decr :
      (d : R.Db) (k j : Text)
      → R.look (R.decr d k) j
        ≡ (if text_eq k j then add_value (negsuc 0) (R.look d k) else R.look d j)
  pub look-zadd_nx :
      (d : R.Db) (k : Text) (s : ℕ) (m j : Text)
      → R.look (R.zadd_nx d k s m) j ≡ (
          if text_eq k j
          then add_to (record { score = s; member = m }) (R.look d k)
          else R.look d j)
  pub look-zpopmin :
      (d : R.Db) (k j : Text)
      → R.look (R.zpopmin d k) j ≡ (if text_eq k j then pop_from (R.look d k) else R.look d j)
  pub look-hset :
      (d : R.Db) (k f v j : Text)
      → R.look (R.hset d k f v) j
        ≡ (if text_eq k j then hset_value f v (R.look d k) else R.look d j)
  pub look-expire :
      (d : R.Db) (k : Text) (ttl : ℕ) (j : Text)
      → 0 < ttl
      → R.look (R.expire d k ttl) j ≡ R.look d j

-- GET of a key that holds a text.
abbrev pub text_of : Value → Option Text
text_of (str t) = some t
text_of _ = none

-- The integer in a key; a missing key counts as 0.
abbrev pub int_of : Value → ℤ
int_of (num n) = n
int_of _ = pos 0

abbrev pub exists : Value → Bool
exists absent = false
exists _ = true

-- One trip to a server: it is made, or the request is lost, or the reply is cut off after the server
-- has acted. The last two are errors to the client.
pub data Net : Type 0 where
  fine lost cut : Net

pub Net-cases : (n : Net) → (n ≡ fine) ⊎ (n ≡ lost) ⊎ (n ≡ cut)
Net-cases fine = inl refl
Net-cases lost = inr (inl refl)
Net-cases cut = inr (inr refl)

unfoldable pub call {ℓ κ} : {S : Type ℓ} {A : Type κ} → Net → (S → A × S) → S → Option A × S
call fine f s = let (a, t) = f s in (some a, t)
call lost f s = (none, s)
call cut f s = let (a, t) = f s in (none, t)
