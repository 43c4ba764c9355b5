-- ===== src/Cli/Dedup.antt =====
-- crates/cli/src/live.rs: the lines of a process stand in its own log and in the merged one, and
-- the followed view shows each of them once.
pub mod Laws
use neals.Prelude.{ℕ, zero, suc, ◌≤◌, Bool, true, false, not, ◌||◌, List, [], ◌∷◌, ◌++◌}
use neals.Prelude.Bools.{ltb, if◌then◌else◌}
use neals.Prelude.Lists.{length}
use neals.Prelude.Text.{Str, str_eq}

unfoldable pub member : Str → List Str → Bool
member x [] = false
member x (y ∷ ys) = str_eq y x || member x ys

-- `HashSet::remove`.
unfoldable pub discard : Str → List Str → List Str
discard x [] = []
discard x (y ∷ ys) = let rest = discard x ys in if str_eq y x then rest else y ∷ rest

-- `order.remove(position of the line)`: its first place.
unfoldable pub remove_first : Str → List Str → List Str
remove_first x [] = []
remove_first x (y ∷ ys) = if str_eq y x then ys else y ∷ remove_first x ys

-- `order` is the queue, its front at the head; `seen` is the hash set `set`.
pub record RecentLines : Type 0 where
  pub order : List Str
  pub seen : List Str
  pub cap : ℕ

unfoldable pub new_lines : ℕ → RecentLines
new_lines cap = record { order = []; seen = []; cap = cap }

-- `while order.len() > cap`: the front leaves the queue and the set.
pub shrink : ℕ → List Str → List Str → List Str × List Str
shrink cap [] seen = ([], seen)
shrink cap (x ∷ xs) seen =
    let fewer = shrink cap xs (discard x seen) in
    if ltb cap (length (x ∷ xs)) then fewer else (x ∷ xs, seen)

unfoldable pub insert : RecentLines → Str → RecentLines
unfolding shrink member discard
insert r line =
    let (order, seen) = shrink r.cap (r.order ++ line ∷ []) (line ∷ r.seen) in
    if member line r.seen then r else record r { order = order; seen = seen }

-- Whether the line was there, and what is left.
unfoldable pub remove : RecentLines → Str → Bool × RecentLines
unfolding member discard remove_first
remove r line =
    if member line r.seen
    then (true, record r { order = remove_first line r.order; seen = discard line r.seen })
    else (false, r)

pub record CrossDeduper : Type 0 where
  pub from_process : RecentLines
  pub from_merged : RecentLines

unfoldable pub new_deduper : ℕ → CrossDeduper
new_deduper cap = record { from_process = new_lines cap; from_merged = new_lines cap }

-- A line is shown unless it pairs off with one that the other log showed.
unfoldable pub take_process : CrossDeduper → Str → Bool × CrossDeduper
take_process d line =
    let (hit, merged) = remove d.from_merged line in
    if hit
    then (false, record d { from_merged = merged })
    else (true, record { from_process = insert d.from_process line; from_merged = merged })

unfoldable pub take_merged : CrossDeduper → Str → Bool × CrossDeduper
take_merged d line =
    let (hit, process) = remove d.from_process line in
    if hit
    then (false, record d { from_process = process })
    else (true, record { from_process = process; from_merged = insert d.from_merged line })
