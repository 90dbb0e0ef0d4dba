-- ===== src/Tests/Address.antt =====
-- Requests to join a queue from several addresses.
use openwar.Common.{ℕ, ◌≡◌, refl, Option, none, List, [], ◌∷◌, arith}
use openwar.Common.Text.{Text, codes, text_eq}
use openwar.Redis.Memory.{memory, empty, memory-IsLawful}
use openwar.Address.{Visitor, index_from, client_ip, check_all}
use openwar.Address.Forwarded.{IsFresh, check_all-IsFresh}
use openwar.Tests.Bucket.{naturals, limiter, naturals-IsRounded, naturals-IsExact}

abbrev sale : Text
sale = codes "sale"

abbrev as_it_is : Text → Text
as_it_is s = s

abbrev no_host : Text → Option Text
no_host s = none

-- One machine that names the address `a`.
abbrev naming : Text → Visitor
naming a = record {
  forwarded_for = a;
  real_ip = [];
  remote_addr = codes "10.0.0.1:9";
  session = [];
}

abbrev four_names : List (ℕ × Visitor)
four_names =
    (7, naming (codes "1.1.1.1"))
    ∷ (7, naming (codes "1.1.1.2"))
    ∷ (7, naming (codes "1.1.1.3"))
    ∷ (7, naming (codes "1.1.1.4"))
    ∷ []

client_ip_list : client_ip as_it_is no_host (naming (codes "1.2.3.4,5.6.7.8")) ≡ codes "1.2.3.4"
unfolding client_ip index_from
client_ip_list = refl

client_ip_remote : client_ip as_it_is no_host (naming []) ≡ codes "10.0.0.1:9"
unfolding client_ip
client_ip_remote = refl

four_names-IsFresh : IsFresh as_it_is no_host naturals memory sale empty four_names
unfolding index_from text_eq
four_names-IsFresh = (
  (refl, refl, refl),
  refl,
  (refl, (refl, (refl, tt))),
  (
    (refl, refl, refl),
    refl,
    (refl, (refl, tt)),
    ((refl, refl, refl), refl, (refl, tt), ((refl, refl, refl), refl, tt, tt)),
  ),
)

check_all-IsFresh_example :
    (check_all as_it_is no_host naturals memory sale limiter four_names empty).0 ≡ 4
check_all-IsFresh_example =
    check_all-IsFresh as_it_is no_host naturals memory sale naturals-IsRounded naturals-IsExact
      memory-IsLawful limiter (omega arith) 3 (omega arith) (omega arith) refl four_names empty
      four_names-IsFresh
