-- ===== src/Telemetry/Replay.antt =====
-- `AntiReplay` of internal/telemetry/probe.go and `ControlGuard` of internal/telemetry/control.go. A
-- control frame is its type and its sequence; the maps are functions.
use fecalia.Base.{
  ℕ, ◌<◌, ◌≤◌, ◌≡◌, Bool, true, false, ◌&&◌, not, Option, none, some, List, [], ◌∷◌, arith, leb,
  ◌==◌, if◌then◌else◌,
}
pub mod Fresh

pub record AntiReplay : Type 0 where
  pub high : ℕ
  pub have : Bool

-- `AntiReplay{}`.
abbrev pub no_replay : AntiReplay
no_replay = record { high = 0; have = false }

-- `AntiReplay.Accept`.
unfoldable pub accept_seq : AntiReplay → ℕ → AntiReplay × Bool
accept_seq a seq =
    if a.have && leb seq a.high then (a, false) else (record { high = seq; have = true }, true)

pub record ControlGuard : Type 0 where
  pub secure : ℕ → Bool
  pub guards : ℕ → Option AntiReplay

-- `NewControlGuard`: the types of the list are the ones that matter for security.
abbrev pub member : List ℕ → ℕ → Bool
member [] t = false
member (s ∷ l) t = let rest = member l t in if s == t then true else rest

unfoldable pub new_guard : List ℕ → ControlGuard
new_guard types = record { secure = member types; guards = λ _. none }

-- The filter of a type, which the first sight creates.
abbrev pub created : Option AntiReplay → AntiReplay
created none = no_replay
created (some a) = a

unfoldable pub put {ℓ} : {A : Type ℓ} → (ℕ → Option A) → ℕ → A → ℕ → Option A
put m t a u = if u == t then some a else m u

-- `ControlGuard.Admit`, of the type and the sequence: true for a nil error.
unfoldable pub admit_control : ControlGuard → ℕ → ℕ → ControlGuard × Bool
unfolding accept_seq put
admit_control g type seq =
    if not (g.secure type)
    then (g, true)
    else (let (a, fresh) = accept_seq (created (g.guards type)) seq in
        (record g { guards = put g.guards type a }, fresh))
