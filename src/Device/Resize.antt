-- ===== src/Device/Resize.antt =====
-- The runtime MTU of the tunnel link, internal/device/tunresize.go. A path's name is a number, the
-- clock's answer is an argument, and so is what setting the link's MTU answers. An MTU below the
-- overheads, which no configuration admits, counts as 0. The ticker of the loop is left out.
use fecalia.Base.{
  ℕ, ◌+◌, ◌-◌, ◌<◌, ◌≤◌, Bool, true, false, ◌&&◌, ◌||◌, not, Option, none, some, List, [], ◌∷◌, ltb,
  ◌==◌, if◌then◌else◌,
}
use fecalia.Telemetry.Liveness.{PathState, down, up, is_up}
use fecalia.Bond.{inner_mtu}
pub mod Least
pub mod Dwell
pub mod History
pub mod Tests

-- `pathMTUSample`.
pub record Sample : Type 0 where
  pub state : PathState
  pub pmtu : ℕ

-- One turn of the loop of `minInnerMTU`: `min` and `ok` are one option.
abbrev pub fold_sample : Option ℕ → ℕ → Option ℕ
fold_sample none inner = some inner
fold_sample (some m) inner = if ltb inner m then some inner else some m

unfoldable pub min_from : Option ℕ → List Sample → Option ℕ
min_from m [] = m
min_from m (s ∷ l) = min_from (if is_up s.state then fold_sample m (inner_mtu s.pmtu) else m) l

unfoldable pub min_inner_mtu : List Sample → Option ℕ
unfolding min_from
min_inner_mtu l = min_from none l

-- `mtuResizer`, without its seams.
pub record Resizer : Type 0 where
  pub dwell : ℕ
  pub applied : ℕ
  pub pending : ℕ
  pub pending_since : ℕ

-- `newMTUResizer`.
unfoldable pub new_resizer : ℕ → ℕ → Resizer
new_resizer boot_mtu dwell = record {
  dwell = dwell;
  applied = boot_mtu;
  pending = 0;
  pending_since = 0;
}

-- The end of `decide`: the MTU is set, unless that fails.
unfoldable pub apply_target : (ℕ → Bool) → Resizer → ℕ → Resizer × Bool
apply_target apply r target =
    if apply target
    then (record r { pending = 0; applied = target }, true)
    else (record r { pending = 0 }, false)

-- The candidate that a loosening waits for.
unfoldable pub await : Resizer → ℕ → ℕ → Resizer
await r target now =
    if r.pending == target then r else (record r { pending = target; pending_since = now })

-- The rest of `decide` for a target that differs from the MTU in force.
unfoldable pub resize : (ℕ → Bool) → Resizer → ℕ → ℕ → Resizer × Bool
unfolding apply_target await
resize apply r now target =
    if ltb r.applied target
    then (let a = await r target now in
        if ltb (now - a.pending_since) a.dwell then (a, false) else apply_target apply a target)
    else apply_target apply r target

-- `decide`: the state, and whether the MTU changed.
unfoldable pub decide_for : (ℕ → Bool) → Resizer → ℕ → Option ℕ → Resizer × Bool
unfolding resize
decide_for apply r now none = (record r { pending = 0 }, false)
decide_for apply r now (some target) =
    if target == r.applied then (record r { pending = 0 }, false) else resize apply r now target

unfoldable pub decide_mtu : (ℕ → Bool) → Resizer → ℕ → List Sample → Resizer × Bool
unfolding decide_for min_inner_mtu
decide_mtu apply r now samples = decide_for apply r now (min_inner_mtu samples)

-- `recompute`: what the gauge records, if it is called.
unfoldable pub recompute : (ℕ → Bool) → Resizer → ℕ → List Sample → Resizer × Option ℕ
unfolding decide_mtu
recompute apply r now samples =
    let (r', changed) = decide_mtu apply r now samples in
    (r', if changed then some r'.applied else none)

-- What `sampleMTU` reads of a path: its name, its state and its discovered MTU.
pub record Snapshot : Type 0 where
  pub name : ℕ
  pub state : PathState
  pub pmtu : ℕ

abbrev pub default_path_mtu : ℕ
default_path_mtu = 1500

abbrev pub or_default : ℕ → ℕ → ℕ
or_default n d = if n == 0 then d else n

-- The configured MTU of a name, by the last entry of that name; an unknown name is 0.
unfoldable pub configured : List (ℕ × ℕ) → ℕ → ℕ
configured [] name = 0
configured ((n, mtu) ∷ l) name =
    let later = configured l name in
    if not (later == 0) then later else (if n == name then or_default mtu default_path_mtu else 0)

-- The MTU of a snapshot: discovered, configured or the default, less the junk headroom.
unfoldable pub effective_mtu : List (ℕ × ℕ) → ℕ → Snapshot → ℕ
unfolding configured
effective_mtu paths junk s =
    or_default (or_default s.pmtu (configured paths s.name)) default_path_mtu - junk

-- The second entry of a path: up if one of them is, and the first MTU that is known.
abbrev pub merge : Sample → PathState → ℕ → Sample
merge cur state mtu = record {
  state = if is_up state then up else cur.state;
  pmtu = or_default cur.pmtu mtu;
}

-- `byName` and `order` are one list, in the order of the first entries.
unfoldable pub add_sample : List (ℕ × Sample) → ℕ → PathState → ℕ → List (ℕ × Sample)
add_sample [] name state mtu = (name, record { state = state; pmtu = mtu }) ∷ []
add_sample ((n, s) ∷ l) name state mtu =
    let rest = add_sample l name state mtu in
    if n == name then (n, merge s state mtu) ∷ l else (n, s) ∷ rest

unfoldable pub samples_from :
    List (ℕ × ℕ) → ℕ → List (ℕ × Sample) → List Snapshot → List (ℕ × Sample)
unfolding add_sample effective_mtu
samples_from paths junk acc [] = acc
samples_from paths junk acc (s ∷ l) =
    samples_from paths junk (add_sample acc s.name s.state (effective_mtu paths junk s)) l

abbrev pub sample_values : List (ℕ × Sample) → List Sample
sample_values [] = []
sample_values ((_, s) ∷ l) = s ∷ sample_values l

-- `sampleMTU`.
unfoldable pub sample_mtu : List (ℕ × ℕ) → ℕ → List Snapshot → List Sample
unfolding samples_from
sample_mtu paths junk snapshots = sample_values (samples_from paths junk [] snapshots)
