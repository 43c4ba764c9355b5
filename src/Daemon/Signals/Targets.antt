-- ===== src/Daemon/Signals/Targets.antt =====
-- Which processes `stop_process_group` of crates/daemon/src/state.rs signals.
use neals.Prelude.{◌≢◌, ℕ, ◌^◌, ◌<◌, true, ◌≢◌, Option, List, ◌∷◌, ◌++◌, ◌≡◌, ◌⊎◌}
use neals.Prelude.Text.{Str}
use neals.Common.Devenv.Nix.{pos}
use neals.Daemon.Signals.{children_of, Sent, killpg, kill, start_kill, TreeEnv}
use neals.Daemon.Signals.Members.{member}
use neals.Daemon.Signals.Walks.{Descends}

-- The pids of the children, where they can be read, are below 2^31.
abbrev pub HasPids : (ℕ → Option Str) → Type 0
HasPids children = (p c : ℕ) → member c (children_of children p) ≡ true → c < 2 ^ 31

-- A descendant by one of the two walks, that `kill` names by its number.
abbrev pub IsTarget : TreeEnv → ℕ → ℕ → Type 0
IsTarget env pid x =
    (1 < x) × (x < 2 ^ 31) × (Descends env.children pid x ⊎ Descends env.children_later pid x)

-- The group of the pid, one of the targets, or the child itself.
abbrev pub IsAimed : TreeEnv → ℕ → Sent → Type 0
IsAimed env pid (killpg g signal) = (g ≡ pid) × (1 < pid)
IsAimed env pid (kill z signal) = (x : ℕ) × (z ≡ pos x) × IsTarget env pid x
IsAimed env pid start_kill = Unit

-- A descendant that is below 2^31.
abbrev Below : TreeEnv → ℕ → ℕ → Type 0
Below env pid x = (x < 2 ^ 31) × (Descends env.children pid x ⊎ Descends env.children_later pid x)

-- A signal is among those that are sent.
abbrev pub IsSent : Sent → List Sent → Type 0
IsSent m sent = (before : List Sent) × (after : List Sent) × (sent ≡ before ++ m ∷ after)
