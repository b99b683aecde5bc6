-- ===== src/Telemetry/Reflector.antt =====
-- The responder of internal/telemetry/probe.go: which probes it takes, and which of them begin a new
-- session on their path. The random source is the list of the words that it is going to deliver,
-- after which every read of it fails.
use fecalia.Base.{
  ℕ, zero, suc, Bool, true, false, ◌&&◌, ◌||◌, not, Option, none, some, List, [], ◌∷◌, ◌==◌,
  if◌then◌else◌,
}
use fecalia.Telemetry.Replay.{AntiReplay, no_replay, accept_seq, put}
pub mod Once
pub mod Session

pub record ReflectorPath : Type 0 where
  pub session : ℕ
  pub guard : AntiReplay
  pub challenge : ℕ
  pub adopted : Bool

pub record Reflector : Type 0 where
  pub rand : List ℕ
  pub paths : ℕ → Option ReflectorPath
  pub last_restart_session : ℕ
  pub have_restart_session : Bool

-- `NewReflector`.
unfoldable pub new_reflector : List ℕ → Reflector
new_reflector rand = record {
  rand = rand;
  paths = λ _. none;
  last_restart_session = 0;
  have_restart_session = false;
}

-- `ProbeAcceptance`.
pub data Acceptance : Type 0 where
  bootstrap current adoption : Acceptance

-- The results of `acceptLocked`: an error of the random source, `reflect=false`, or the challenge to
-- stamp into the echo with the classification.
pub data Verdict : Type 0 where
  failed replayed : Verdict
  reflected : ℕ → Acceptance → Bool → Verdict

-- `drawChallenge`: zeros are passed over.
unfoldable pub draw_challenge : List ℕ → Option (ℕ × List ℕ)
draw_challenge [] = none
draw_challenge (zero ∷ l) = draw_challenge l
draw_challenge (suc n ∷ l) = some (suc n, l)

-- The new state of a path that is seen for the first time.
unfoldable pub open_path : Reflector → ℕ → Option (ℕ × List ℕ) → Option (ReflectorPath × Reflector)
unfolding put
open_path r path_id none = none
open_path r path_id (some (ch, l)) =
    let st : ReflectorPath = record {
      session = 0;
      guard = no_replay;
      challenge = ch;
      adopted = false;
    } in
    some (st, record r { rand = l; paths = put r.paths path_id st })

unfoldable pub find_path : Reflector → ℕ → Option ReflectorPath → Option (ReflectorPath × Reflector)
unfolding draw_challenge open_path
find_path r path_id (some st) = some (st, r)
find_path r path_id none = open_path r path_id (draw_challenge r.rand)

-- The first case: a probe of the session that is live on the path, with the filter's answer.
unfoldable pub judge_current :
    Reflector → ℕ → ReflectorPath → AntiReplay × Bool → Reflector × Verdict
unfolding put
judge_current r path_id st (g, true) = (
  record r { paths = put r.paths path_id (record st { guard = g }) },
  reflected st.challenge current false,
)
judge_current r path_id st (g, false) = (r, replayed)

unfoldable pub accept_current : Reflector → ℕ → ReflectorPath → ℕ → Reflector × Verdict
unfolding judge_current
accept_current r path_id st seq = judge_current r path_id st (accept_seq st.guard seq)

-- The second case: the session is adopted, and the challenge changed.
unfoldable pub adopt_with :
    Reflector → ℕ → ReflectorPath → ℕ → ℕ → Option (ℕ × List ℕ) → Reflector × Verdict
unfolding put accept_seq
adopt_with r path_id st session seq none = (
  record r {
    rand = [];
    paths =
        put r.paths path_id
          (record st { session = session; adopted = true; guard = (accept_seq no_replay seq).0 });
  },
  failed,
)
adopt_with r path_id st session seq (some (ch, l)) =
    let restart = st.adopted && not (session == st.session) in
    let changed =
      restart && (not r.have_restart_session || not (session == r.last_restart_session)) in
    (
      record {
        rand = l;
        paths = put r.paths path_id (record {
          session = session;
          adopted = true;
          guard = (accept_seq no_replay seq).0;
          challenge = ch;
        });
        last_restart_session = if changed then session else r.last_restart_session;
        have_restart_session = if changed then true else r.have_restart_session;
      },
      reflected ch adoption changed,
    )

unfoldable pub decide_probe : Reflector → ℕ → ReflectorPath → ℕ → ℕ → ℕ → Reflector × Verdict
unfolding accept_current adopt_with draw_challenge
decide_probe r path_id st session seq echoed =
    if st.adopted && session == st.session
    then accept_current r path_id st seq
    else (if echoed == st.challenge
        then adopt_with r path_id st session seq (draw_challenge r.rand)
        else (r, reflected st.challenge bootstrap false))

-- `acceptLocked`.
unfoldable pub accept_probe : Reflector → ℕ → ℕ → ℕ → ℕ → Reflector × Verdict
unfolding find_path decide_probe
accept_probe r path_id session seq echoed = elim (find_path r path_id (r.paths path_id)) [
  | none ↦ (record r { rand = [] }, failed)
  | some found ↦ decide_probe found.1 path_id found.0 session seq echoed
]
