-- ===== src/Daemon/Netns.antt =====
-- crates/daemon/src/netns.rs: the command lines of a project's network namespace, its proxies, and
-- the wait for its first process. The programs, the file system and /proc are parameters.
pub mod Waited
use neals.Prelude.{
  ℕ, zero, suc, ◌+◌, ◌^◌, ◌-◌, Bool, true, false, not, ◌&&◌, Option, none, some, List, [], ◌∷◌,
  ◌++◌,
}
use neals.Prelude.Bools.{◌==◌, if◌then◌else◌}
use neals.Prelude.Decimal.{decimal, parse_unsigned}
use neals.Prelude.Lists.{find}
use neals.Prelude.Outcome.{Outcome, ok, err, ◌>>=◌}
use neals.Prelude.Paths.{file_name, parent, components}
use neals.Prelude.Text.{Str, codes, str_eq, trim}
use neals.Common.Flags.{shell_quote}
use neals.Common.Xdg.{join}
use neals.Daemon.Commands.{split_whitespace}
use neals.Daemon.Ports.{Ipv4Addr}
use neals.Daemon.Routes.{BoundRoute, BoundTarget}

-- The first directory of the path that holds the program.
unfoldable pub which : (Str → Bool) → List Str → Str → Option Str
which is_file [] bin = none
which is_file (dir ∷ dirs) bin =
    let rest = which is_file dirs bin in
    if is_file (join dir bin) then some (join dir bin) else rest

pub data NetnsError : Type 0 where
  no_tool : Str → NetnsError
  no_userns no_nealsd slirp_exited timed_out : NetnsError
  not_bound not_spawned : Ipv4Addr → ℕ → NetnsError
  not_started : NetnsError

abbrev tool : (Str → Bool) → List Str → Str → Outcome NetnsError (Unit {0})
tool is_file path bin = elim (which is_file path bin) [ none ↦ err (no_tool bin) | some p ↦ ok tt ]

unfoldable pub require_tools : (Str → Bool) → List Str → Bool → Outcome NetnsError (Unit {0})
unfolding which
require_tools is_file path userns_works = tool is_file path (codes "bwrap") >>= λ _.
    tool is_file path (codes "slirp4netns") >>= λ _. if userns_works then ok tt else err no_userns

unfoldable pub quoted_words : List Str → Str
quoted_words [] = []
quoted_words (a ∷ args) = b' ' ∷ shell_quote a ++ quoted_words args

unfoldable pub shell_line : Str → List Str → Str
unfolding quoted_words
shell_line program args =
    codes "ip link set lo up 2>/dev/null || true; exec " ++ shell_quote program ++ quoted_words args

unfoldable pub same_parts : List Str → List Str → Bool
same_parts [] [] = true
same_parts (a ∷ as_parts) (b ∷ bs) = str_eq a b && same_parts as_parts bs
same_parts _ _ = false

-- The directories between `acc` and the target, which is not one of them.
unfoldable pub dirs_to : Str → Str → List Str → List Str
unfolding same_parts
dirs_to target acc [] = []
dirs_to target acc (c ∷ cs) =
    let rest = dirs_to target (join acc c) cs in
    if same_parts (components (join acc c)) (components target)
    then rest
    else codes "--dir" ∷ join acc c ∷ rest

-- `strip_prefix("/run")`
unfoldable pub below_run : Str → Option (List Str)
below_run path = elim (components path) [
  | [] ↦ none
  | c ∷ cs ↦ if str_eq c (codes "run") then some cs else none
]

unfoldable pub mount_writable_run : Str → List Str
unfolding below_run dirs_to
mount_writable_run runtime = codes "--tmpfs" ∷ codes "/run" ∷ elim (below_run runtime) [
  | none ↦ []
  | some parts ↦ dirs_to runtime (codes "/run") parts ++ codes "--bind" ∷ runtime ∷ runtime ∷ []
]

unfoldable pub mount_session_runtime : (Str → Bool) → ℕ → List Str
mount_session_runtime is_dir uid =
    let session = codes "/run/user/" ++ decimal uid in
    if is_dir session
    then codes "--dir" ∷ codes "/run/user" ∷ codes "--bind" ∷ session ∷ session ∷ []
    else []

-- `dest` is what the file under /etc resolves to, where it does.
unfoldable pub mount_etc_file : Str → Option Str → List Str
unfolding below_run dirs_to
mount_etc_file source none = []
mount_etc_file source (some dest) =
    elim (below_run dest) [ none ↦ [] | some parts ↦ dirs_to dest (codes "/run") parts ]
    ++ codes "--ro-bind" ∷ source ∷ dest ∷ []

-- The files that a start has written, and what stands on the host.
pub record BwrapEnv : Type 0 where
  pub uid : ℕ
  pub gid : ℕ
  pub is_dir : Str → Bool
  pub resolv_dest : Option Str
  pub hosts_dest : Option Str

-- The arguments of bwrap, for the program, its arguments, and the paths.
unfoldable pub bwrap_args : BwrapEnv → Str → List Str → Str → Str → Str → Str → List Str
unfolding mount_writable_run mount_session_runtime mount_etc_file shell_line
bwrap_args env program args project_dir runtime resolv_conf hosts_file =
    codes "--die-with-parent"
    ∷ codes "--unshare-user"
    ∷ codes "--uid"
    ∷ decimal env.uid
    ∷ codes "--gid"
    ∷ decimal env.gid
    ∷ codes "--unshare-net"
    ∷ codes "--cap-add"
    ∷ codes "CAP_NET_ADMIN"
    ∷ codes "--dev-bind"
    ∷ codes "/"
    ∷ codes "/"
    ∷ (mount_writable_run runtime
        ++ (mount_session_runtime env.is_dir env.uid
            ++ (mount_etc_file resolv_conf env.resolv_dest
                ++ (mount_etc_file hosts_file env.hosts_dest
                    ++ codes "--chdir"
                      ∷ project_dir
                      ∷ codes "--"
                      ∷ codes "/bin/sh"
                      ∷ codes "-c"
                      ∷ shell_line program args
                      ∷ []))))

unfoldable pub slirp_args : Bool → ℕ → List Str
slirp_args allow_host_loopback netns_pid =
    codes "--configure"
    ∷ codes "--mtu=65520"
    ∷ ((if allow_host_loopback then [] else codes "--disable-host-loopback" ∷ [])
        ++ decimal netns_pid ∷ codes "tap0" ∷ [])

-- `spawned`: whether slirp4netns starts; `exits`: whether it has ended after 200 ms.
unfoldable pub start_slirp : Bool → Bool → Bool → ℕ → Outcome NetnsError (List Str)
unfolding slirp_args
start_slirp allow_host_loopback spawned exits netns_pid =
    if not spawned
    then err not_started
    else if exits
    then err slirp_exited
    else ok (slirp_args allow_host_loopback netns_pid)

-- Beside the running program, and then one directory above it.
unfoldable pub beside : (Str → Bool) → Str → Option Str
beside is_file exe = elim (parent exe) [
  | none ↦ none
  | some dir ↦
      if is_file (join dir (codes "nealsd"))
      then some (join dir (codes "nealsd"))
      else elim (parent dir) [
        | none ↦ none
        | some above ↦
            if is_file (join above (codes "nealsd"))
            then some (join above (codes "nealsd"))
            else none
      ]
]

abbrev is_nealsd : Option Str → Bool
is_nealsd none = false
is_nealsd (some name) = str_eq name (codes "nealsd")

abbrev found_or : Option Str → Option Str → Outcome NetnsError Str
found_or (some p) other = ok p
found_or none (some p) = ok p
found_or none none = err no_nealsd

unfoldable pub nealsd_of_exe : (Str → Bool) → List Str → Option Str → Outcome NetnsError Str
unfolding which beside
nealsd_of_exe is_file path none = found_or none (which is_file path (codes "nealsd"))
nealsd_of_exe is_file path (some exe) =
    let other = found_or (beside is_file exe) (which is_file path (codes "nealsd")) in
    if is_nealsd (file_name exe) then ok exe else other

-- `var` is NEALSD_BIN, and `exe` the running program.
unfoldable pub find_nealsd_exe :
    (Str → Bool) → List Str → Option Str → Option Str → Outcome NetnsError Str
unfolding nealsd_of_exe
find_nealsd_exe is_file path none exe = nealsd_of_exe is_file path exe
find_nealsd_exe is_file path (some raw) exe =
    let other = nealsd_of_exe is_file path exe in
    if is_file (trim raw) then ok (trim raw) else other

-- A helper that listens on an address of the host, with its arguments.
pub record Helper : Type 0 where
  pub host_ip : Ipv4Addr
  pub host_port : ℕ
  pub args : List Str

pub record ProxyEnv : Type 0 where
  pub binds : Ipv4Addr → ℕ → Bool
  pub spawns : Ipv4Addr → ℕ → Bool

unfoldable pub start_helper : ProxyEnv → ℕ → Ipv4Addr → ℕ → ℕ → Outcome NetnsError Helper
start_helper env netns_pid ip port guest =
    let h : Helper = record {
      host_ip = ip;
      host_port = port;
      args = codes "--netns-proxy" ∷ decimal netns_pid ∷ decimal guest ∷ [];
    } in
    if not (env.binds ip port)
    then err (not_bound ip port)
    else if env.spawns ip port
    then ok h
    else err (not_spawned ip port)

abbrev pub helpers_for :
    ProxyEnv → ℕ → BoundTarget → Outcome NetnsError (List Helper) → Outcome NetnsError (List Helper)
helpers_for env pid (BoundTarget.unix file) rest = rest
helpers_for env pid (BoundTarget.tcp ip port guest) rest =
    start_helper env pid ip port guest >>= λ h. rest >>= λ hs. ok (h ∷ hs)

-- The helpers of the TCP routes, in their order.
unfoldable pub start_helpers : ProxyEnv → ℕ → List BoundRoute → Outcome NetnsError (List Helper)
unfolding start_helper
start_helpers env pid [] = ok []
start_helpers env pid (r ∷ rs) = helpers_for env pid r.target (start_helpers env pid rs)

unfoldable pub start_proxies :
    ProxyEnv → Outcome NetnsError Str → ℕ → List BoundRoute → Outcome NetnsError (List Helper)
unfolding start_helpers
start_proxies env exe netns_pid bound = exe >>= λ _. start_helpers env netns_pid bound

-- The first token of the file, where it is a `u32`.
unfoldable pub first_pid : Option Str → Option ℕ
first_pid none = none
first_pid (some raw) = elim (split_whitespace raw) [
  | [] ↦ none
  | t ∷ ts ↦ parse_unsigned (2 ^ 32 - 1) t
]

unfoldable pub first_of_tasks : List (Option Str) → Option ℕ
unfolding first_pid
first_of_tasks [] = none
first_of_tasks (raw ∷ raws) = elim (first_pid raw) [
  | some pid ↦ some pid
  | none ↦ first_of_tasks raws
]

-- What /proc says at one look: the children of the main task, and those of all tasks.
abbrev pub Children : Type 0
Children = Option Str × List (Option Str)

unfoldable pub netns_pid_for_bwrap : Children → Option ℕ
unfolding first_of_tasks
netns_pid_for_bwrap (main, tasks) = elim (first_pid main) [
  | some pid ↦ some pid
  | none ↦ first_of_tasks tasks
]

-- `looks` are the rounds of the wait, from the first on.
unfoldable pub wait_rounds : ℕ → ℕ → (ℕ → Children) → Outcome NetnsError ℕ
unfolding netns_pid_for_bwrap
wait_rounds zero round looks = err timed_out
wait_rounds (suc left) round looks = elim (netns_pid_for_bwrap (looks round)) [
  | some pid ↦ ok pid
  | none ↦ wait_rounds left (round + 1) looks
]

unfoldable pub wait_netns_pid : (ℕ → Children) → Outcome NetnsError ℕ
unfolding wait_rounds
wait_netns_pid looks = wait_rounds 50 0 looks
