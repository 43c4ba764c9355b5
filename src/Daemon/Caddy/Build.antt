-- ===== src/Daemon/Caddy/Build.antt =====
-- The ports and the routes of the configuration that `build_caddy_config` makes, and the search
-- for the port that it listens on.
use neals.Prelude.{
  ℕ, zero, suc, ◌+◌, ◌≤◌, ◌<◌, ◌≡◌, ◌⊎◌, refl, Bool, true, false, none, some, [], ◌∷◌, ◌++◌, arith,
  inl, inr,
}
use neals.Prelude.Bools.{◌==◌, Bool-cases}
use neals.Prelude.Decimal.{decimal, parse-decimal, decimal_digits}
use neals.Prelude.Lists.{all}
use neals.Prelude.Outcome.{Outcome, ok, err}
use neals.Prelude.Text.{Str, is_ascii_digit}
use neals.Daemon.Ports.{u16_max}
use neals.Daemon.Routes.{Snapshot}
use neals.Daemon.Caddy.{
  after_colon, or_port, parse_port, http_port_from_addr, https_port_from_addr, build_caddy_config,
  CaddyError, no_free_http_port, pick_rounds, pick_http_port,
}

after_colon-none : (s : Str) → all is_ascii_digit s ≡ true → after_colon s ≡ none
unfolding after_colon all is_ascii_digit
after_colon-none [] h = refl
after_colon-none (c ∷ s) h = rw (after_colon-none s (ground arith)) (ground arith)

after_colon-append : (host s : Str) → after_colon s ≡ none → after_colon (host ++ b':' ∷ s) ≡ some s
unfolding after_colon
after_colon-append [] s h = rw h refl
after_colon-append (c ∷ host) s h = rw (after_colon-append host s h) refl

http_port-decimal :
    (host : Str) (p : ℕ) → p ≤ u16_max → http_port_from_addr (host ++ b':' ∷ decimal p) ≡ p
unfolding http_port_from_addr or_port parse_port
http_port-decimal host p h =
    rw
      (
        after_colon-append host (decimal p) (after_colon-none (decimal p) (decimal_digits p)),
        parse-decimal u16_max p h,
      )
      refl

-- A configuration for the address `host:p` names the port `p`, and beside it an HTTPS port of a
-- `u16` that differs from `p` but where `p` is 65535; it is 1024 or more.
pub build_caddy_config-ports :
    (runtime sock host log : Str) (projects : Snapshot) (p : ℕ)
    → p ≤ u16_max
    → let c = build_caddy_config runtime sock (host ++ b':' ∷ decimal p) log projects in
      (c.http_port ≡ p)
      × (1024 ≤ c.https_port)
      × (c.https_port ≤ u16_max)
      × ((c.https_port == p) ≡ (p == u16_max))
unfolding build_caddy_config https_port_from_addr
build_caddy_config-ports runtime sock host log projects p h =
    rw (http_port-decimal host p h) (refl, ground arith, ground arith, ground arith)

-- A port the search goes through: 80, 2015, then 2016 to 3039.
abbrev pub IsCandidate : ℕ → Type 0
IsCandidate p = (p ≡ 80) ⊎ ((2015 ≤ p) × (p ≤ 3039))

abbrev pub Picked : (ℕ → Bool) → Outcome CaddyError ℕ → Type 0
Picked binds (ok p) =
    IsCandidate p × (binds p ≡ true) × ((q : ℕ) → IsCandidate q → q < p → binds q ≡ false)
Picked binds (err e) = (e ≡ no_free_http_port) × ((q : ℕ) → IsCandidate q → binds q ≡ false)

abbrev Below : (ℕ → Bool) → ℕ → Type 0
Below binds port = (q : ℕ) → IsCandidate q → q < port → binds q ≡ false

Below-next :
    (binds : ℕ → Bool) (port : ℕ) → Below binds port → binds port ≡ false → Below binds (port + 1)
Below-next binds port b h q c l = elim (Bool-cases (q == port)) [
  | inl e ↦ ground arith
  | inr e ↦ b q c (ground arith)
]

pick_rounds-Picked :
    (binds : ℕ → Bool) (n port : ℕ)
    → 2016 ≤ port
    → port + n ≡ 3040
    → Below binds port
    → Picked binds (pick_rounds n binds port)
unfolding pick_rounds
pick_rounds-Picked binds zero port lo hi b =
    (refl, λ q c. b q c (elim c [ inl e ↦ omega arith | inr r ↦ omega (arith, r.1) ]))
pick_rounds-Picked binds (suc n) port lo hi b = elim (Bool-cases (binds port)) [
  | inl e ↦ rw (e, pick_rounds) (inr (omega arith, omega arith), e, b)
  | inr e ↦
      let below = Below-next binds port b e in
      let later = pick_rounds-Picked binds n (port + 1) (omega arith) (omega arith) below in
      elim (Bool-cases (port == u16_max)) [
        | inl last ↦ absurd (ground arith)
        | inr more ↦ rw (e, more, pick_rounds) later
      ]
]

-- `pick_http_port` finds the least port that binds of 80, 2015 and 2016 to 3039, and fails exactly
-- when none of them binds.
pub pick_http_port_lem : (binds : ℕ → Bool) → Picked binds (pick_http_port binds)
unfolding pick_http_port
pick_http_port_lem binds = elim (Bool-cases (binds 80)) [
  | inl e ↦
      rw e
        (inl refl, e, λ q c l. absurd (elim c [ inl h ↦ omega arith | inr h ↦ omega (arith, h.0) ]))
  | inr e ↦ elim (Bool-cases (binds 2015)) [
    | inl f ↦
        rw (e, f)
          (
            inr (omega arith, omega arith),
            f,
            λ q c l. elim c [ inl h ↦ ground arith | inr h ↦ absurd (omega (arith, h.0)) ],
          )
    | inr f ↦
        rw (e, f)
          (pick_rounds-Picked binds 1024 2016 (omega arith) (omega arith)
            (λ q c l. elim c [ inl h ↦ ground arith | inr h ↦ ground (arith, h.0) ]))
  ]
]
