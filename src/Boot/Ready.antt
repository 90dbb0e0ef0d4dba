-- ===== src/Boot/Ready.antt =====
-- What is there once a process has come up.
use openwar.Common.{
  ℕ, ◌≤◌, ◌≡◌, refl, ap, sym, ◌∙◌, inl, inr, Bool, true, false, Bool-cases, Option, none,
  Option-cases, List, All, ◌&&◌, length,
}
use openwar.Common.Int.{ℤ}
use openwar.Common.Text.{Text}
use openwar.Config.{validate}
use openwar.Migrations.{Migrated, is_migrated, open_store, migrate, FileRun, Entry, Catalog}
use openwar.Migrations.Resume.{all_made, migrate_again}
use openwar.Redis.{Net, fine}
use openwar.Streams.{Stream, setup, defs}
use openwar.Streams.Again.{IsServer, IsClear, setup_again}
use openwar.Boot.{
  gateway_serves, Deps, gateway, Exit, no_nats, no_streams, no_database, with_store, Workers,
  worker_runs, backend_exits, worker_exits, invalid, worker, Up, backend, backend_serves,
  streams_ready,
}
use openwar.Boot.Secret.{secret_of, cfg, secret, valid_secret, gateway-secret}

module _ (env : Text → Text) (trim : Text → Text) (atoi duration : Text → Option ℤ) where
  module _ {ℓ} {S : Type ℓ} (add_stream : Stream → S → Option Text × S) (Has : Stream → S → Type 0)
      (V : IsServer add_stream Has) where
    -- No stream was in the way, every stream of the program is there, and a further `Setup` changes
    -- nothing.
    abbrev pub HasStreams : S → S → Type ℓ
    HasStreams s s' =
        IsClear add_stream Has V s defs
        × All (λ d. Has d s') defs
        × (setup add_stream s' ≡ (none, s'))

    streams_ready-HasStreams :
        (up : Up) (s : S)
        → (streams_ready add_stream up s).0 ≡ true
        → HasStreams s (streams_ready add_stream up s).1
    unfolding streams_ready
    streams_ready-HasStreams up s e = elim (Bool-cases up.jetstream) [
      | inr j ↦ let no : false ≡ true = sym (rw (j, streams_ready) refl) ∙ e in cc
      | inl j ↦ elim (Option-cases (setup add_stream s).0) [
        | inl q ↦ rw (j, streams_ready) (setup_again add_stream Has V s q)
        | inr (x, q) ↦ let no : false ≡ true = sym (rw (j, q, streams_ready) refl) ∙ e in cc
      ]
    ]

    exits : (x : Exit) (w : Workers) → ¬ (worker_exits x ≡ worker_runs w)
    exits x w e = cc

    module _ {κ} {C : Type κ} (ensure_schema : C → Migrated × C) (up : Up) where
      -- A store that was opened has its schema ensured.
      open_store_lem :
          (t : C)
          → (open_store up.connects up.database_ping ensure_schema t).0 ≡ true
          → (is_migrated (ensure_schema t).0 ≡ true)
            × ((open_store up.connects up.database_ping ensure_schema t).1 ≡ (ensure_schema t).1)
      unfolding open_store
      open_store_lem t e = elim (Bool-cases (up.connects && up.database_ping)) [
        | inl y ↦ (sym (rw (y, open_store) refl) ∙ e, rw (y, open_store) refl)
        | inr y ↦ let no : false ≡ true = sym (rw (y, open_store) refl) ∙ e in cc
      ]

      abbrev HasSchema : C → C → Type κ
      HasSchema t t' = (is_migrated (ensure_schema t).0 ≡ true) × (t' ≡ (ensure_schema t).1)

      with_store-HasSchema :
          (s : S) (t : C) (w : Workers)
          → (with_store add_stream ensure_schema env up (cfg env trim atoi duration) s t).0
            ≡ worker_runs w
          → HasSchema t
              (with_store add_stream ensure_schema env up (cfg env trim atoi duration) s t).2
      unfolding with_store
      with_store-HasSchema s t w e =
          elim (Bool-cases (open_store up.connects up.database_ping ensure_schema t).0) [
            | inl y ↦ open_store_lem t y
            | inr y ↦ absurd (exits no_database w (sym (rw (y, with_store) refl) ∙ e))
          ]

      worker-HasStreams :
          (s : S) (t : C) (w : Workers)
          → (worker add_stream ensure_schema env up (cfg env trim atoi duration) s t).0
            ≡ worker_runs w
          → let r = worker add_stream ensure_schema env up (cfg env trim atoi duration) s t in
            (validate (cfg env trim atoi duration) ≡ none) × HasStreams s r.1 × HasSchema t r.2
      unfolding worker with_store
      worker-HasStreams s t w e = elim (Option-cases (validate (cfg env trim atoi duration))) [
        | inr (x, v) ↦ absurd (exits (invalid x) w (sym (rw (v, worker) refl) ∙ e))
        | inl v ↦ elim (Bool-cases up.nats) [
          | inr n ↦ absurd (exits no_nats w (sym (rw (v, n, worker) refl) ∙ e))
          | inl n ↦ elim (Bool-cases (streams_ready add_stream up s).0) [
            | inr r ↦ absurd (exits no_streams w (sym (rw (v, n, r, worker) refl) ∙ e))
            | inl r ↦
                rw (v, n, r, worker)
                  (
                    refl,
                    streams_ready-HasStreams up s r,
                    with_store-HasSchema (streams_ready add_stream up s).1 t w
                        (sym (rw (v, n, r, worker) refl) ∙ e),
                  )
          ]
        ]
      ]

    backend-HasStreams :
        (up : Up) (s : S) (shards ttl : ℤ)
        → (backend add_stream up (cfg env trim atoi duration) s).0 ≡ backend_serves shards ttl
        → HasStreams s (backend add_stream up (cfg env trim atoi duration) s).1
    unfolding backend
    backend-HasStreams up s shards ttl e = elim (Bool-cases up.nats) [
      | inr n ↦
          let no : backend_exits no_nats ≡ backend_serves shards ttl =
            sym (rw (n, backend) refl) ∙ e in
          cc
      | inl n ↦ elim (Bool-cases (streams_ready add_stream up s).0) [
        | inr r ↦
            let no : backend_exits no_streams ≡ backend_serves shards ttl =
              sym (rw (n, r, backend) refl) ∙ e in
            cc
        | inl r ↦ rw (n, backend) (streams_ready-HasStreams up s r)
      ]
    ]

    -- Which processes come up. The gateway serves only with the environment's `JWT_SECRET`, of 32
    -- bytes or more, whatever its arguments. The worker runs only with such a secret, and then
    -- leaves the database of a `Migrate` in which nothing fails, however its own went. Where the
    -- worker runs or the backend serves, no stream had one of the four names with another
    -- configuration, all four streams are there with theirs, and a further `Setup` whose calls are
    -- answered succeeds and changes nothing. AddStream does what is documented: it adds a stream;
    -- it answers without an error if the stream is there with the same configuration, and with an
    -- error if the name is in use with another, and changes nothing then; it removes none; and
    -- none of its errors starts with the word `stream`, since those of the API have the prefix
    -- `nats: `.
    pub comes_up :
        {U D : Type ℓ} (parse_url : Text → Option U) (flags : List Text → Option ℤ) (ping : Bool)
        (args : List Text) (d : Deps U) (up : Up) (s : S) (read : Text → Option Text)
        (exec : Text → D → Option D) (sort : List Text → List Text) (create : Net)
        (runs : ℕ → FileRun) (entries : Option (List Entry)) (c : Catalog D)
        → (gateway parse_url flags ping (cfg env trim atoi duration) args ≡ gateway_serves d
            → (32 ≤ length (secret env trim atoi duration))
              × (d.jwt_secret ≡ secret env trim atoi duration))
          × ((w : Workers)
              → let r =
                  worker add_stream
                    (migrate read exec sort create runs entries)
                    env
                    up
                    (cfg env trim atoi duration)
                    s
                    c in
                r.0 ≡ worker_runs w
                → (32 ≤ length (secret env trim atoi duration))
                  × HasStreams s r.1
                  × (r.2 ≡ (migrate read exec sort fine all_made entries c).1))
          × ((shards ttl : ℤ)
              → (backend add_stream up (cfg env trim atoi duration) s).0 ≡ backend_serves shards ttl
              → HasStreams s (backend add_stream up (cfg env trim atoi duration) s).1)
    comes_up {U = U} {D = D} parse_url flags ping args d up s read exec sort create runs entries c =
        (
          λ e.
              let (v, t) =
                gateway-secret env trim atoi duration parse_url flags ping d.jwt_secret args
                  (ap secret_of e) in
              let (le, same) = valid_secret env trim atoi duration v in (le, t ∙ same),
          λ w e.
              let (v, h, m) =
                worker-HasStreams (migrate read exec sort create runs entries) up s c w e in
              ((valid_secret env trim atoi duration v).0, h, m.1 ∙ whole m.0),
          backend-HasStreams up s,
        )
      where
        -- A migration without an error is one in which nothing fails.
        whole :
            is_migrated (migrate read exec sort create runs entries c).0 ≡ true
            → (migrate read exec sort create runs entries c).1
              ≡ (migrate read exec sort fine all_made entries c).1
        whole m = elim (migrate_again read exec sort create runs entries c).1 [
          | inl p ↦ ap (λ (x : Migrated × Catalog D). x.1) p
          | inr n ↦ let no : true ≡ false = sym m ∙ n in cc
        ]
