-- ===== src/Redis/Memory.antt =====
-- A server in memory that meets the interface: a function from keys to values.
use openwar.Common.{refl, if◌then◌else◌}
use openwar.Common.Int.{pos, negsuc}
use openwar.Common.Text.{Text, text_eq}
use openwar.Redis.{
  Value, absent, str, num, Redis, IsLawful, add_value, set_missing, add_to, pop_from, hset_value,
}

abbrev write : (Text → Value) → Text → Value → Text → Value
write d k v j = if text_eq k j then v else d j

abbrev pub memory : Redis
memory = record {
  Db = Text → Value;
  look = λ d k. d k;
  set = λ d k v ttl. write d k (str v);
  set_nx = λ d k v ttl. write d k (set_missing v (d k));
  set_int = λ d k n. write d k (num n);
  del = λ d k. write d k absent;
  incr = λ d k. write d k (add_value (pos 1) (d k));
  decr = λ d k. write d k (add_value (negsuc 0) (d k));
  zadd_nx = λ d k s m. write d k (add_to (record { score = s; member = m }) (d k));
  zpopmin = λ d k. write d k (pop_from (d k));
  hset = λ d k f v. write d k (hset_value f v (d k));
  expire = λ d k ttl. d;
}

pub memory-IsLawful : IsLawful memory
memory-IsLawful = record {
  look-set = λ d k v ttl j. refl;
  look-set_nx = λ d k v ttl j. refl;
  look-set_int = λ d k n j. refl;
  look-del = λ d k j. refl;
  look-incr = λ d k j. refl;
  look-decr = λ d k j. refl;
  look-zadd_nx = λ d k s m j. refl;
  look-zpopmin = λ d k j. refl;
  look-hset = λ d k f v j. refl;
  look-expire = λ d k ttl j h. refl;
}

abbrev pub empty : Text → Value
empty k = absent
