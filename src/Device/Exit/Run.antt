-- ===== src/Device/Exit/Run.antt =====
-- Runs of the selector: every operation keeps its invariant.
use fecalia.Base.{
  ℕ, Bool, true, false, ◌&&◌, not, Option, none, some, List, [], ◌∷◌, ◌==◌, if◌then◌else◌,
}
use fecalia.Device.Exit.{
  Engine, Mode, auto, fixed, is_auto, Selector, controlled, Switched, done, unknown, refused,
  cooling, keep_mode, set_mode, promote, map_first, closest, first_healthy_standby, evaluate_auto,
  on_active_exhausted, retry_exhausted_promotion, switch,
}
use fecalia.Device.Exit.Invariant.{IsValid, switch_lem, Moved-IsValid}

-- The calls that reach the selector, at their times, with what the seams answer: the operator's, the
-- evaluation of the round trips, the callback of an exhausted endpoint list, and its retry.
pub data Call : Type 0 where
  operate : Mode → ℕ → Call
  evaluate : ℕ → (ℕ → Bool) → (ℕ → Option ℕ) → Call
  exhaust : ℕ → ℕ → (ℕ → Bool) → Call
  retry : ℕ → (ℕ → Bool) → (ℕ → Bool) → Call

module _ {E : Type 0} (k : Engine E) where
  unfoldable pub call : E × Selector → Call → E × Selector
  call (e, s) (operate mode now) = let (e', s', _) = set_mode k e s mode now in (e', s')
  call (e, s) (evaluate now healthy rtt) = evaluate_auto k e s now healthy rtt
  call (e, s) (exhaust name now healthy) = on_active_exhausted k e s name now healthy
  call (e, s) (retry now exhausted healthy) = retry_exhausted_promotion k e s now exhausted healthy

  unfoldable pub call_all : E × Selector → List Call → E × Selector
  call_all o [] = o
  call_all o (c ∷ l) = call_all (call o c) l

  keep_mode-IsValid :
      (name : ℕ) (o : E × Selector × Switched) → IsValid o.1 → IsValid (keep_mode k name o).1
  unfolding keep_mode
  keep_mode-IsValid name (e, s, done) v = record {
    active = v.active;
    order = v.order;
    subs = v.subs;
  }
  keep_mode-IsValid name (e, s, unknown) v = v
  keep_mode-IsValid name (e, s, refused) v = v

  mode_cases-IsValid :
      (e : E) (s : Selector) (m : Mode)
      → IsValid s
      → IsValid
          (elim m as (λ _. E × Selector × Switched) [
            | auto ↦ (e, s, done)
            | fixed _ ↦ (e, record s { mode = auto; last_switch = none }, done)
          ]).1
  mode_cases-IsValid e s auto v = v
  mode_cases-IsValid e s (fixed _) v = record { active = v.active; order = v.order; subs = v.subs }

  set_mode-IsValid :
      (e : E) (s : Selector) (mode : Mode) (now : ℕ)
      → IsValid s
      → IsValid (set_mode k e s mode now).1
  unfolding set_mode
  set_mode-IsValid e s auto now v = mode_cases-IsValid e s s.mode v
  set_mode-IsValid e s (fixed name) now v =
      keep_mode-IsValid name (switch k e s name now)
        (Moved-IsValid k v (switch_lem k e s name now v))

  promote-IsValid :
      (e : E) (s : Selector) (now : ℕ) (o : Option ℕ) → IsValid s → IsValid (promote k e s now o).1
  unfolding promote
  promote-IsValid e s now none v = v
  promote-IsValid e s now (some n) v = Moved-IsValid k v (switch_lem k e s n now v)

  choose-IsValid :
      (b : Bool) (x y : E × Selector) → IsValid x.1 → IsValid y.1 → IsValid (if b then x else y).1
  choose-IsValid true x y p q = p
  choose-IsValid false x y p q = q

  call-IsValid : (o : E × Selector) (c : Call) → IsValid o.1 → IsValid (call o c).1
  unfolding call evaluate_auto on_active_exhausted retry_exhausted_promotion
  call-IsValid (e, s) (operate mode now) v = set_mode-IsValid e s mode now v
  call-IsValid (e, s) (evaluate now healthy rtt) v =
      choose-IsValid
        (is_auto s.mode && (s.has_rtt && (s.has_health && not (cooling s.last_switch now)))) _ _
        (promote-IsValid e s now (map_first (closest healthy rtt none s.order)) v) v
  call-IsValid (e, s) (exhaust name now healthy) v =
      choose-IsValid (s.active == name) _ _
        (promote-IsValid e s now (first_healthy_standby s healthy) v) v
  call-IsValid (e, s) (retry now exhausted healthy) v =
      choose-IsValid (controlled s.ctrls s.active && exhausted s.active) _ _
        (promote-IsValid e s now (first_healthy_standby s healthy) v) v

  -- From a valid state, after any calls, in any order and whatever the engine and the seams answer,
  -- the active exit is a configured one and exactly its controller drives the selector.
  pub call_all-IsValid : (o : E × Selector) (l : List Call) → IsValid o.1 → IsValid (call_all o l).1
  unfolding call_all
  call_all-IsValid o [] v = v
  call_all-IsValid o (c ∷ l) v = call_all-IsValid (call o c) l (call-IsValid o c v)
