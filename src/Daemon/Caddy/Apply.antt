-- ===== src/Daemon/Caddy/Apply.antt =====
-- What `apply_routes` of crates/daemon/src/caddy.rs leaves the proxy with.
use neals.Prelude.{◌≡◌, refl, ◌⊎◌, inl, inr, ℕ, subst, sym, Option, true, false, none, some, arith}
use neals.Prelude.Bools.{take_else, take_both}
use neals.Prelude.Outcome.{Outcome, ok, err}
use neals.Prelude.Text.{Str}
use neals.Daemon.Routes.{Snapshot}
use neals.Daemon.Caddy.{
  CaddyManager, CaddyEnv, CaddyError, Config, unheard, config_of, respawn, post_load, apply_routes,
  apply_in, first_posted, respawned, written_again, admin_reachable,
}

-- The settings of a manager never change.
pub record SameSettings (m n : CaddyManager) : Type 0 where
  pub admin_sock : n.admin_sock ≡ m.admin_sock
  pub http_addr : n.http_addr ≡ m.http_addr
  pub config_path : n.config_path ≡ m.config_path
  pub loose : n.loose ≡ m.loose

pub respawn-SameSettings : (env : CaddyEnv) (m : CaddyManager) → SameSettings m (respawn env m).1
unfolding respawn
respawn-SameSettings env m = ground arith

-- A start of the proxy leaves what it serves, or stops it.
respawn-served :
    (env : CaddyEnv) (m : CaddyManager)
    → ((respawn env m).1.served ≡ m.served) ⊎ ((respawn env m).1.served ≡ none)
unfolding respawn
respawn-served env m = ground arith

-- A post that fails has given the proxy the configuration of these routes all the same.
abbrev pub Taken : CaddyEnv → CaddyManager → Snapshot → CaddyManager → Type 0
Taken env m projects n =
    (k : ℕ) × (env.takes k ≡ true)
    × (dir : Str) × (env.state_dir ≡ ok dir)
    × (n.served ≡ some (config_of env m dir projects))

abbrev pub Kept : CaddyEnv → CaddyManager → Snapshot → CaddyManager → Type 0
Kept env m projects n = (n.served ≡ m.served) ⊎ ((n.served ≡ none) ⊎ Taken env m projects n)

-- On success the proxy serves the configuration of these routes, and the file holds it too; after
-- an error it serves what it did before, or nothing, or these routes where it took them from a post
-- that failed.
abbrev pub Applied :
    CaddyEnv → CaddyManager → Snapshot → Outcome CaddyError (Unit {0}) × CaddyManager → Type 0
Applied env m projects (ok u, n) =
    (dir : Str) × (env.state_dir ≡ ok dir)
    × (n.served ≡ some (config_of env m dir projects))
    × (n.written ≡ some (config_of env m dir projects))
    × SameSettings m n
Applied env m projects (err e, n) = Kept env m projects n × SameSettings m n

module _ (env : CaddyEnv) (m : CaddyManager) (projects : Snapshot) (strict : m.loose ≡ false) where
  -- What a call leaves the proxy with before its next post.
  Before : CaddyManager → Type 0
  Before n = Kept env m projects n × SameSettings m n

  unheard-Before :
      (k : ℕ) (n : CaddyManager) (dir : Str)
      → env.state_dir ≡ ok dir
      → Before n
      → Before (unheard env k n (config_of env m dir projects))
  unfolding Before
  unheard-Before k n dir d h =
      take_both Before (env.takes k) (record n { served = some (config_of env m dir projects) }) n
        (λ t. (inr (inr (k, t, dir, d, refl)), ground (arith, h.1))) (λ f. h)

  respawn-Before : (n : CaddyManager) → Before n → Before (respawn env n).1
  unfolding Before
  respawn-Before n (kept, same) = (
    elim (respawn-served env n) [
      | inl e ↦ subst (λ x. (x ≡ m.served) ⊎ ((x ≡ none) ⊎ Served x)) (sym e) kept
      | inr e ↦ inr (inl e)
    ],
    ground (arith, same, respawn-SameSettings env n),
  )
    where
      Served : Option Config → Type 0
      Served x =
          (k : ℕ) × (env.takes k ≡ true)
          × (dir : Str) × (env.state_dir ≡ ok dir)
          × (x ≡ some (config_of env m dir projects))

  written_again-Applied :
      (n : CaddyManager) (dir : Str) (w p : Outcome CaddyError (Unit {0}))
      → env.state_dir ≡ ok dir
      → Before n
      → post_load (env.post 1) ≡ p
      → Applied env m projects (written_again env n (config_of env m dir projects) w)
  unfolding Before
  written_again-Applied n dir (err e) p d h q = h
  written_again-Applied n dir (ok u) (ok v) d h q = rw q (dir, d, refl, refl, ground (arith, h.1))
  written_again-Applied n dir (ok u) (err e) d h q = rw q (
      unheard-Before 1 (record n { written = some (config_of env m dir projects) }) dir d
        (h.0, ground (arith, h.1)))

  respawned-Applied :
      (dir : Str) (r : Outcome CaddyError (Unit {0}) × CaddyManager)
      → env.state_dir ≡ ok dir
      → Before r.1
      → Applied env m projects (respawned env (config_of env m dir projects) r)
  unfolding Before
  respawned-Applied dir (err e, n) d h = h
  respawned-Applied dir (ok u, n) d h =
      written_again-Applied n dir (env.write_config 2) (post_load (env.post 1)) d h refl

  first_posted-Applied :
      (dir : Str) (p : Outcome CaddyError (Unit {0}))
      → env.state_dir ≡ ok dir
      → Applied env m projects (
          first_posted env
            (record m { written = some (config_of env m dir projects) })
            (config_of env m dir projects)
            p)
  unfolding Before
  first_posted-Applied dir (ok u) d = (dir, d, refl, refl, ground arith)
  first_posted-Applied dir (err e) d =
      let n = record m { written = some (config_of env m dir projects) } in
      let n' = unheard env 0 n (config_of env m dir projects) in
      let before = unheard-Before 0 n dir d (inl refl, ground arith) in
      take_else (Applied env m projects) m.loose _ _ strict (
        take_both (Applied env m projects) (admin_reachable env m 0) _ _ (λ up. before)
          (λ down. respawned-Applied dir (respawn env n') d (respawn-Before n' before)))

  apply_in-Applied :
      (d : Outcome CaddyError Str) (w : Outcome CaddyError (Unit {0}))
      → env.state_dir ≡ d
      → env.write_config 0 ≡ w
      → Applied env m projects (apply_in env m projects d)
  apply_in-Applied (err e) w d q = (inl refl, ground arith)
  apply_in-Applied (ok dir) (err e) d q = rw q (inl refl, ground arith)
  apply_in-Applied (ok dir) (ok u) d q = rw q (first_posted-Applied dir (post_load (env.post 0)) d)

  -- With a strict manager `apply_routes` succeeds only when the proxy has accepted the
  -- configuration of these routes, after a restart if need be; after an error the proxy serves the
  -- routes of before, or none, or the new ones where it took them from a post that failed.
  pub apply_routes-Applied : Applied env m projects (apply_routes env m projects)
  unfolding apply_routes
  apply_routes-Applied = simp strict (apply_in-Applied env.state_dir (env.write_config 0) refl refl)
