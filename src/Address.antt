-- ===== src/Address.antt =====
-- internal/router/handlers.go: the address of a client, and the limit on how often one may join a queue.
-- `strings.TrimSpace` and `net.SplitHostPort` are parameters; a missing header is empty.
pub mod Forwarded
use openwar.Common.{
  ℕ, zero, suc, Bool, true, false, Option, none, some, List, [], ◌∷◌, ◌++◌, ◌==◌, take,
  if◌then◌else◌,
}
use openwar.Common.Int.{ℤ}
use openwar.Common.Text.{Text, codes, is_empty}
use openwar.Redis.{Redis, Net, fine}
use openwar.Gateway.{Result, RoomReply, room_error, join_handler}
use openwar.Bucket.{Floats, Limiter, allow_key}

-- What `clientIP` reads of a request, and the session of its cookie.
pub record Visitor : Type 0 where
  pub forwarded_for : Text
  pub real_ip : Text
  pub remote_addr : Text
  pub session : Text

-- `strings.Index` of one byte, which the first `n` bytes before the text are not.
unfoldable pub index_from : ℕ → ℕ → Text → Option ℕ
index_from n c [] = none
index_from n c (b ∷ s) = let rest = index_from (suc n) c s in if b == c then some n else rest

-- `rl:ip:%s:%s`
unfoldable pub ip_key : Text → Text → Text
ip_key event ip = codes "rl:ip:" ++ (event ++ (codes ":" ++ ip))

-- Whether a check lets the request pass.
abbrev pub passes : Option Result → Bool
passes none = true
passes (some res) = false

module _ (trim : Text → Text) (host_of : Text → Option Text) where
  -- `clientIP`
  unfoldable pub client_ip : Visitor → Text
  unfolding index_from
  client_ip r =
      if is_empty r.forwarded_for
      then (if is_empty r.real_ip
          then elim (host_of r.remote_addr) [ none ↦ r.remote_addr | some host ↦ host ]
          else trim r.real_ip)
      else elim (index_from 0 b',' r.forwarded_for) [
        | none ↦ trim r.forwarded_for
        | some i ↦ trim (take i r.forwarded_for)
      ]

  module _ (F : Floats) (R : Redis) (event : Text) where
    -- `checkIPRateLimit`: `none` lets the request pass, and otherwise it is refused with this result.
    unfoldable pub check_ip_rate_limit :
        Option (Limiter F) → Net → F.W → Visitor → R.Db → Option Result × R.Db
    unfolding client_ip ip_key
    check_ip_rate_limit none net now r d = (none, d)
    check_ip_rate_limit (some l) net now r d =
        let (res, d1) = allow_key F R l net (ip_key event (client_ip r)) now d in
        (if res.allowed then none else some res, d1)

    -- The handler `join`, with its check.
    unfoldable pub checked_join :
        Option (Limiter F) → Net → F.W → Visitor → Text → Net → ℕ → ℕ → R.Db → RoomReply × R.Db
    unfolding check_ip_rate_limit
    checked_join limiter net now r new_sid join_net hb_ttl score d =
        let (refused, d1) = check_ip_rate_limit limiter net now r d in
        join_handler R event (passes refused) r.session new_sid join_net hb_ttl score d1

    -- Checks one after another, every trip made: how many requests pass.
    unfoldable pub check_all : Limiter F → List (F.W × Visitor) → R.Db → ℕ × R.Db
    unfolding check_ip_rate_limit
    check_all l [] d = (0, d)
    check_all l ((now, r) ∷ rs) d =
        let (refused, d1) = check_ip_rate_limit (some l) fine now r d in
        let (n, d2) = check_all l rs d1 in (if passes refused then suc n else n, d2)
