-- ===== src/Daemon/Ports/Preferred.antt =====
-- The search for a host port, `bind_preferred` of crates/daemon/src/ports.rs.
use neals.Prelude.{ℕ, zero, suc, ◌+◌, ◌≤◌, ◌<◌, ◌≡◌, ◌⊎◌, ◌↔◌, inl, inr, none, some, arith, refl}
use neals.Prelude.Bools.{◌==◌, Bool-cases}
use neals.Prelude.Outcome.{ok, err}
use neals.Daemon.Ports.{
  Ipv4Addr, Sockets, Listen, refused, opened, PortError, u16_max, preferred_rounds, bind_preferred,
}

module _ (s : Sockets) (ip : Ipv4Addr) where
  -- Every port from `low` up to `high`, the last one excluded, is refused.
  abbrev pub Refused : ℕ → ℕ → Type 0
  Refused low high = (r : ℕ) → low ≤ r → r < high → s.listen ip r ≡ refused

  Refused-next :
      (low high : ℕ) → Refused (low + 1) high → s.listen ip low ≡ refused → Refused low high
  Refused-next low high later e r p q = ground (arith, later r)

  -- The port that is found is the first in range that is not refused.
  abbrev pub FoundAt : ℕ → ℕ → ℕ → Type 0
  FoundAt start rounds q =
      (p : ℕ) × (start ≤ p)
      × (p < start + rounds)
      × (p ≤ u16_max)
      × (s.listen ip p ≡ opened (some q))
      × Refused start p

  FoundAt-next :
      (start n q : ℕ)
      → FoundAt (start + 1) n q
      → s.listen ip start ≡ refused
      → FoundAt start (suc n) q
  FoundAt-next start n q (p, lo, hi, top, e, before) here =
      (p, omega arith, omega arith, top, e, Refused-next start p before here)

  FoundAt-here :
      (start n q : ℕ)
      → start ≤ u16_max
      → s.listen ip start ≡ opened (some q)
      → FoundAt start (suc n) q
  FoundAt-here start n q top e =
      (start, omega arith, omega arith, top, e, λ r p h. absurd (omega arith))

  listen_cases :
      (p : ℕ)
      → (s.listen ip p ≡ refused)
        ⊎ (s.listen ip p ≡ opened none)
        ⊎ ((q : ℕ) × (s.listen ip p ≡ opened (some q)))
  listen_cases p = cases (s.listen ip p) refl
    where
      cases :
          (o : Listen)
          → s.listen ip p ≡ o
          → (s.listen ip p ≡ refused)
            ⊎ (s.listen ip p ≡ opened none)
            ⊎ ((q : ℕ) × (s.listen ip p ≡ opened (some q)))
      cases refused e = inl e
      cases (opened none) e = inr (inl e)
      cases (opened (some q)) e = inr (inr (q, e))

  preferred_rounds_found :
      (n start port q : ℕ)
      → port ≤ u16_max
      → preferred_rounds n s ip start port ≡ ok q
      → FoundAt port n q
  unfolding preferred_rounds
  preferred_rounds_found zero start port q top h = ground arith
  preferred_rounds_found (suc n) start port q top h = elim (listen_cases port) [
    | inl e ↦
        FoundAt-next port n q
          (preferred_rounds_found n start (port + 1) q (ground arith) (ground arith)) e
    | inr (inl e) ↦ ground arith
    | inr (inr (q', e)) ↦ FoundAt-here port n q top (ground arith)
  ]

  -- The search gives up after its rounds, or at the last port, or where a listener has no address.
  abbrev pub NoneFound : ℕ → ℕ → Type 0
  NoneFound port rounds =
      Refused port (port + rounds)
      ⊎ Refused port (u16_max + 1)
      ⊎ ((p : ℕ) × (port ≤ p) × (p < port + rounds) × (s.listen ip p ≡ opened none))

  NoneFound-next :
      (port n : ℕ) → s.listen ip port ≡ refused → NoneFound (port + 1) n → NoneFound port (suc n)
  NoneFound-next port n e (inl h) =
      inl (λ r p q. Refused-next port (port + suc n) (λ r' p' q'. h r' p' (omega arith)) e r p q)
  NoneFound-next port n e (inr (inl h)) = inr (inl (Refused-next port _ h e))
  NoneFound-next port n e (inr (inr (p, lo, hi, x))) = inr (inr (p, omega arith, omega arith, x))

  preferred_rounds_none :
      (n start port : ℕ) (e : PortError)
      → preferred_rounds n s ip start port ≡ err e
      → NoneFound port n
  unfolding preferred_rounds
  preferred_rounds_none zero start port e h = inl (λ r p q. absurd (omega arith))
  preferred_rounds_none (suc n) start port e h = elim (listen_cases port) [
    | inl x ↦ elim (Bool-cases (port == u16_max)) [
      | inl last ↦ inr (inl (λ r p q. ground arith))
      | inr more ↦
          NoneFound-next port n x (preferred_rounds_none n start (port + 1) e (ground arith))
    ]
    | inr (inl x) ↦ inr (inr (port, omega arith, omega arith, x))
    | inr (inr (q, x)) ↦ ground arith
  ]

  preferred_rounds_complete :
      (n start port q : ℕ) → FoundAt port n q → preferred_rounds n s ip start port ≡ ok q
  unfolding preferred_rounds
  preferred_rounds_complete zero start port q (p, lo, hi, top, e, before) = absurd (omega arith)
  preferred_rounds_complete (suc n) start port q (p, lo, hi, top, e, before) =
      elim (Bool-cases (p == port)) [
        | inl here ↦ ground arith
        | inr later ↦ ground (
          arith,
          before port,
          preferred_rounds_complete n start (port + 1) q
              (p, ground arith, ground arith, top, e, λ r a b. before r (omega arith) b),
        )
      ]

  -- From a `u16` start, `bind_preferred` returns a port exactly when that is the port of the first
  -- bind which is not refused, of the 1024 ports from `start` and none above 65535.
  pub bind_preferred_iff :
      (start q : ℕ) → start ≤ u16_max → (bind_preferred s ip start ≡ ok q) ↔ FoundAt start 1024 q
  unfolding bind_preferred
  bind_preferred_iff start q top =
      (preferred_rounds_found 1024 start start q top, preferred_rounds_complete 1024 start start q)

  -- It fails only if each of the 1024 ports from `start` is refused, or each up to 65535, or if one
  -- of the 1024 opens a listener that has no local address.
  pub bind_preferred_err :
      (start : ℕ) (e : PortError) → bind_preferred s ip start ≡ err e → NoneFound start 1024
  unfolding bind_preferred
  bind_preferred_err start e h = preferred_rounds_none 1024 start start e h
