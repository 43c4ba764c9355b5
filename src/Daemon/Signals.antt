-- ===== src/Daemon/Signals.antt =====
-- The signals to the processes of a project, crates/daemon/src/state.rs. `children` is what
-- `/proc/<pid>/task/<pid>/children` holds, where it can be read.
pub mod Members
pub mod Walks
pub mod Descendants
pub mod Targets
use neals.Prelude.{
  ℕ, zero, suc, ◌+◌, ◌-◌, ◌^◌, Bool, true, false, not, ◌&&◌, Option, none, some, List, [], ◌∷◌,
  ◌++◌,
}
use neals.Prelude.Bools.{◌==◌, ltb, leb, if◌then◌else◌}
use neals.Prelude.Decimal.{parse_unsigned}
use neals.Prelude.Lists.{any, select}
use neals.Prelude.Text.{Str, codes, str_eq, is_empty}
use neals.Common.Devenv.Nix.{ℤ, pos, negsuc}
use neals.Daemon.Commands.{split_whitespace}

-- `pid as i32`: from 2^31 on, the number less 2^32.
unfoldable pub as_i32 : ℕ → ℤ
as_i32 pid = if ltb pid (2 ^ 31) then pos pid else negsuc (2 ^ 32 - 1 - pid)

pub data Signal : Type 0 where
  sigterm : Signal
  sigkill : Signal

-- What is sent: by `killpg`, by `kill`, and by `start_kill` of the child.
pub data Sent : Type 0 where
  killpg : ℕ → Signal → Sent
  kill : ℤ → Signal → Sent
  start_kill : Sent

-- `i32::try_from(pid)` of a pid above 1.
unfoldable pub signal_group : ℕ → Signal → List Sent
signal_group pid signal = if ltb pid (2 ^ 31) && ltb 1 pid then killpg pid signal ∷ [] else []

unfoldable pub signal_pid : ℕ → Signal → List Sent
unfolding as_i32
signal_pid pid signal = if leb pid 1 then [] else kill (as_i32 pid) signal ∷ []

unfoldable pub signal_pids : List ℕ → Signal → List Sent
unfolding signal_pid
signal_pids [] signal = []
signal_pids (pid ∷ pids) signal = signal_pid pid signal ++ signal_pids pids signal

-- The tokens of the file that are a `u32`.
unfoldable pub pids_of : List Str → List ℕ
pids_of [] = []
pids_of (t ∷ ts) = elim (parse_unsigned (2 ^ 32 - 1) t) [
  | some pid ↦ pid ∷ pids_of ts
  | none ↦ pids_of ts
]

unfoldable pub children_of : (ℕ → Option Str) → ℕ → List ℕ
unfolding pids_of
children_of children pid = elim (children pid) [
  | some raw ↦ pids_of (split_whitespace raw)
  | none ↦ []
]

-- The queue is popped at the end that is pushed, here its head.
pub record Walk : Type 0 where
  pub seen : List ℕ
  pub queue : List ℕ
  pub descendants : List ℕ

unfoldable pub visit : Walk → List ℕ → Walk
visit w [] = w
visit w (child ∷ rest) =
    let next : Walk = record {
      seen = child ∷ w.seen;
      queue = child ∷ w.queue;
      descendants = w.descendants ++ child ∷ [];
    } in
    let old = visit w rest in
    let fresh = visit next rest in if any (λ p. p == child) w.seen then old else fresh

-- The loop ends when the queue is empty.
unfoldable pub walk : ℕ → (ℕ → Option Str) → Walk → List ℕ
unfolding visit children_of
walk zero children w = w.descendants
walk (suc fuel) children w = elim w.queue [
  | [] ↦ w.descendants
  | pid ∷ queue ↦ walk fuel children (visit (record w { queue = queue }) (children_of children pid))
]

-- Each pid of 32 bits is in the queue once at most.
unfoldable pub collect_descendants : (ℕ → Option Str) → ℕ → List ℕ
unfolding walk
collect_descendants children root =
    let start : Walk = record { seen = root ∷ []; queue = root ∷ []; descendants = [] } in
    walk (2 ^ 32 + 1) children start

-- `alive`: which pids are there at each poll, and `polls` how many the deadline leaves.
unfoldable pub wait_pids_gone : (ℕ → ℕ → Bool) → ℕ → List ℕ → List ℕ
wait_pids_gone alive zero pids = pids
wait_pids_gone alive (suc polls) [] = []
wait_pids_gone alive (suc polls) (p ∷ pids) =
    wait_pids_gone alive polls (select (alive polls) (p ∷ pids))

-- A process of `/proc` has its number, or another name, and its environment where it can be read.
pub record ProcEntry : Type 0 where
  pub name : Str
  pub environ : Option (List Str)

unfoldable pub is_straggler : Str → ℕ → Option (List Str) → Bool
is_straggler marker pid none = false
is_straggler marker pid (some chunks) = not (leb pid 1) && any (λ c. str_eq c marker) chunks

unfoldable pub find_stragglers : Str → List ProcEntry → List ℕ
unfolding is_straggler
find_stragglers marker [] = []
find_stragglers marker (e ∷ es) = elim (parse_unsigned (2 ^ 32 - 1) e.name) [
  | none ↦ find_stragglers marker es
  | some pid ↦
      if is_straggler marker pid e.environ
      then pid ∷ find_stragglers marker es
      else find_stragglers marker es
]

-- What the signals meet: the children at the two walks, whether the child ends in time, and the
-- polls of the last waits.
pub record TreeEnv : Type 0 where
  pub children : ℕ → Option Str
  pub children_later : ℕ → Option Str
  pub child_ends : Bool
  pub alive : ℕ → ℕ → Bool
  pub polls : ℕ

unfoldable pub sweep_project_processes : Str → TreeEnv → List ProcEntry → List Sent
sweep_project_processes runtime env entries =
    let strays = find_stragglers (codes "NEALS_RUNTIME=" ++ runtime) entries in
    signal_pids strays sigterm ++ signal_pids (wait_pids_gone env.alive env.polls strays) sigkill

unfoldable pub stop_process_group : ℕ → TreeEnv → List Sent
stop_process_group pid env =
    let marked = collect_descendants env.children pid in
    let later = marked ++ collect_descendants env.children_later pid in
    let survivors = wait_pids_gone env.alive env.polls marked in
    let killed : List Sent =
      signal_group pid sigkill ++ (signal_pids later sigkill ++ start_kill ∷ []) in
    signal_group pid sigterm
    ++ (signal_pids marked sigterm
        ++ ((if env.child_ends then [] else killed) ++ signal_pids survivors sigkill))
