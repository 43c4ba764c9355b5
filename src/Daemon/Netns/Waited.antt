-- ===== src/Daemon/Netns/Waited.antt =====
-- What `wait_netns_pid` and `start_proxies` of crates/daemon/src/netns.rs return.
use neals.Prelude.{
  ℕ, zero, suc, ◌+◌, ◌<◌, ◌≤◌, not, none, some, List, [], ◌∷◌, ◌≡◌, refl, ap, ap₂, ◌∙◌, inl, inr,
  arith, subst,
}
use neals.Prelude.Bools.{◌==◌, ==_iff, Bool-cases, take_both, Option-cases}
use neals.Prelude.Outcome.{Outcome, ok, err, OnOk, then-OnOk}
use neals.Daemon.Ports.{Ipv4Addr}
use neals.Daemon.Routes.{BoundRoute, BoundTarget}
use neals.Daemon.Netns.{
  not_bound, not_spawned, Children, NetnsError, timed_out, netns_pid_for_bwrap, wait_rounds,
  wait_netns_pid, Helper, ProxyEnv, start_helper, start_helpers, helpers_for,
}

-- No look of the `n` from `start` on shows a pid.
abbrev pub NoneSeen : (ℕ → Children) → ℕ → ℕ → Type 0
NoneSeen looks start n = (j : ℕ) → start ≤ j → j < start + n → netns_pid_for_bwrap (looks j) ≡ none

abbrev pub WaitPost : (ℕ → Children) → ℕ → ℕ → Outcome NetnsError ℕ → Type 0
WaitPost looks start n (ok pid) =
    (k : ℕ) × (k < n)
    × (netns_pid_for_bwrap (looks (start + k)) ≡ some pid)
    × NoneSeen looks start k
WaitPost looks start n (err e) = (e ≡ timed_out) × NoneSeen looks start n

NoneSeen-suc :
    (looks : ℕ → Children) (start n : ℕ)
    → netns_pid_for_bwrap (looks start) ≡ none
    → NoneSeen looks (start + 1) n
    → NoneSeen looks start (suc n)
NoneSeen-suc looks start n h k j l b = elim (Bool-cases (start == j)) [
  | inl e ↦ subst (λ i. netns_pid_for_bwrap (looks i) ≡ none) ((==_iff start j).0 e) h
  | inr e ↦ k j (ground (arith, e, l)) (omega (arith, b))
]

later-Post :
    (looks : ℕ → Children) (start n : ℕ) (o : Outcome NetnsError ℕ)
    → netns_pid_for_bwrap (looks start) ≡ none
    → WaitPost looks (start + 1) n o
    → WaitPost looks start (suc n) o
later-Post looks start n (ok pid) h (k, b, e, before) = (
  suc k,
  omega arith,
  ap (λ i. netns_pid_for_bwrap (looks i)) {y = start + 1 + k} (omega arith) ∙ e,
  NoneSeen-suc looks start k h before,
)
later-Post looks start n (err e) h (same, before) = (same, NoneSeen-suc looks start n h before)

wait_rounds-Post :
    (n start : ℕ) (looks : ℕ → Children) → WaitPost looks start n (wait_rounds n start looks)
unfolding wait_rounds
wait_rounds-Post zero start looks = (refl, λ j l b. absurd (omega arith))
wait_rounds-Post (suc n) start looks = elim (Option-cases (netns_pid_for_bwrap (looks start))) [
  | inl e ↦
      rw (wait_rounds, e)
        (later-Post looks start n (wait_rounds n (start + 1) looks) e
          (wait_rounds-Post n (start + 1) looks))
  | inr (pid, e) ↦
      rw (wait_rounds, e)
        (
          0,
          omega arith,
          ap (λ i. netns_pid_for_bwrap (looks i)) {y = start} (omega arith) ∙ e,
          λ j l b. absurd (omega arith),
        )
]

-- The wait returns the pid of the first of its 50 looks that shows one, and fails only where none
-- does.
pub wait_netns_pid_lem : (looks : ℕ → Children) → WaitPost looks 0 50 (wait_netns_pid looks)
unfolding wait_netns_pid
wait_netns_pid_lem looks = wait_rounds-Post 50 0 looks

-- The addresses on the host of the TCP routes.
abbrev pub tcp_hosts : List BoundRoute → List (Ipv4Addr × ℕ)
tcp_hosts [] = []
tcp_hosts (r ∷ rs) = elim r.target [
  | BoundTarget.unix file ↦ tcp_hosts rs
  | BoundTarget.tcp ip port guest ↦ (ip, port) ∷ tcp_hosts rs
]

abbrev pub host_of : Helper → Ipv4Addr × ℕ
host_of h = (h.host_ip, h.host_port)

abbrev pub helper_hosts : List Helper → List (Ipv4Addr × ℕ)
helper_hosts [] = []
helper_hosts (h ∷ hs) = host_of h ∷ helper_hosts hs

start_helper-host :
    (env : ProxyEnv) (pid : ℕ) (ip : Ipv4Addr) (port guest : ℕ)
    → OnOk (λ h. host_of h ≡ (ip, port)) (start_helper env pid ip port guest)
unfolding start_helper
start_helper-host env pid ip port guest =
    take_both (OnOk (λ h. host_of h ≡ (ip, port))) (not (env.binds ip port))
      (err (not_bound ip port)) _ (λ _. tt)
      λ _.
        take_both (OnOk (λ h. host_of h ≡ (ip, port))) (env.spawns ip port) _
          (err (not_spawned ip port)) (λ _. refl) λ _. tt

helpers_for-hosts :
    (env : ProxyEnv) (pid : ℕ) (t : BoundTarget) (hosts : List (Ipv4Addr × ℕ))
    (rest : Outcome NetnsError (List Helper))
    → OnOk (λ hs. helper_hosts hs ≡ hosts) rest
    → OnOk
        (λ hs. helper_hosts hs ≡ elim t [
          | BoundTarget.unix file ↦ hosts
          | BoundTarget.tcp ip port guest ↦ (ip, port) ∷ hosts
        ])
        (helpers_for env pid t rest)
helpers_for-hosts env pid (BoundTarget.unix file) hosts rest h = h
helpers_for-hosts env pid (BoundTarget.tcp ip port guest) hosts rest h =
    then-OnOk (λ h. host_of h ≡ (ip, port)) (λ hs. helper_hosts hs ≡ (ip, port) ∷ hosts)
      (start_helper env pid ip port guest) _ (start_helper-host env pid ip port guest)
      λ a e.
        then-OnOk (λ hs. helper_hosts hs ≡ hosts) (λ hs. helper_hosts hs ≡ (ip, port) ∷ hosts) rest
          _ h λ hs k. ap₂ (λ x xs. x ∷ xs) e k

-- Where all helpers start, there is one for each TCP route, on its address, in order.
pub start_helpers-hosts :
    (env : ProxyEnv) (pid : ℕ) (routes : List BoundRoute)
    → OnOk (λ hs. helper_hosts hs ≡ tcp_hosts routes) (start_helpers env pid routes)
unfolding start_helpers
start_helpers-hosts env pid [] = refl
start_helpers-hosts env pid (r ∷ rs) =
    helpers_for-hosts env pid r.target (tcp_hosts rs) (start_helpers env pid rs)
      (start_helpers-hosts env pid rs)
