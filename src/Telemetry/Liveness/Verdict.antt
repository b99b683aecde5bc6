-- ===== src/Telemetry/Liveness/Verdict.antt =====
-- What the verdict says of the echoes and the silence that led to it.
use fecalia.Base.{
  ℕ, suc, ◌+◌, ◌-◌, ◌<◌, ◌≤◌, ◌≡◌, inl, inr, refl, sym, ap, ◌∙◌, Bool, true, false, ◌&&◌, List, [],
  ◌∷◌, ◌++◌, map, ltb, leb, if◌then◌else◌, arith, drop, Bool-cases, if_true, if_false, leb→le,
  lt→ltb, le→ltb_false, ◌⊎◌,
}
use mathlib.Core.Path.{subst}
use fecalia.Telemetry.Liveness.{
  PathState, down, up, is_up, is_down, LivenessConfig, Liveness, new_liveness, streak_at,
  record_echo, tick_at, Event, echo, tick, drive, after,
}

-- The times of the echoes, the newest first.
abbrev pub echoes : List Event → List ℕ
echoes [] = []
echoes (echo t ∷ es) = t ∷ echoes es
echoes (tick _ ∷ es) = echoes es

-- How many of the newest echoes are consecutive: each at most `d` after the one before.
abbrev pub consecutive : ℕ → List ℕ → ℕ
consecutive d [] = 0
consecutive d (t ∷ []) = 1
consecutive d (t ∷ u ∷ l) =
    let rest = consecutive d (u ∷ l) in if ltb d (t - u) then 1 else suc rest

abbrev Latest : Bool → ℕ → List ℕ → Type 0
Latest have last [] = have ≡ false
Latest have last (t ∷ _) = (have ≡ true) × (last ≡ t)

-- What brought the path up: at some time the newest `n` echoes were consecutive.
abbrev pub Earned : PathState → ℕ → ℕ → List ℕ → Type 0
Earned down n d ts = Unit
Earned up n d ts = (k : ℕ) × (n ≤ consecutive d (drop k ts))

record Tracks (cfg : LivenessConfig) (ts : List ℕ) (l : Liveness) : Type 0 where
  same : l.cfg ≡ cfg
  latest : Latest l.have_good l.last_good ts
  streak : l.good_streak ≤ consecutive cfg.down_after ts
  earned : Earned l.state cfg.up_after_successes cfg.down_after ts

streak_lem :
    (d now : ℕ) (have : Bool) (last good : ℕ) (ts : List ℕ)
    → Latest have last ts
    → good ≤ consecutive d ts
    → (if have && ltb d (now - last) then 0 else good) + 1 ≤ consecutive d (now ∷ ts)
streak_lem d now true last good [] h le = cc h
streak_lem d now false last good [] h le = omega arith
streak_lem d now true last good (t ∷ ts) (h, e) le = ground arith
streak_lem d now false last good (t ∷ ts) (h, e) le = cc h

earned_lem :
    (s : PathState) (n d streak now : ℕ) (ts : List ℕ)
    → streak ≤ consecutive d (now ∷ ts)
    → Earned s n d ts
    → Earned (if is_down s && leb n streak then up else s) n d (now ∷ ts)
earned_lem up n d streak now ts le (k, h) = (suc k, h)
earned_lem down n d streak now ts le _ = elim (Bool-cases (leb n streak)) [
  | inl e ↦
      subst (λ (s : PathState). Earned s n d (now ∷ ts)) (sym (if_true (leb n streak) _ _ e))
        (0, omega (arith, leb→le n streak e, le))
  | inr e ↦
      subst (λ (s : PathState). Earned s n d (now ∷ ts)) (sym (if_false (leb n streak) _ _ e)) tt
]

record_echo-Tracks :
    (cfg : LivenessConfig) (ts : List ℕ) (l : Liveness) (now : ℕ)
    → Tracks cfg ts l
    → Tracks cfg (now ∷ ts) (record_echo l now)
unfolding record_echo streak_at
record_echo-Tracks cfg ts l now v =
    let le =
      subst
        (λ (c : LivenessConfig).
          (if l.have_good && ltb c.down_after (now - l.last_good) then 0 else l.good_streak) + 1
          ≤ consecutive cfg.down_after (now ∷ ts))
        (sym v.same)
        (streak_lem cfg.down_after now l.have_good l.last_good l.good_streak ts v.latest
          v.streak) in
    record {
      same = v.same;
      latest = (refl, refl);
      streak = le;
      earned =
          subst
            (λ (c : LivenessConfig).
              Earned (record_echo l now).state c.up_after_successes cfg.down_after (now ∷ ts))
            v.same
            (earned_lem l.state l.cfg.up_after_successes cfg.down_after _ now ts le (
              subst (λ (c : LivenessConfig). Earned l.state c.up_after_successes cfg.down_after ts)
                (sym v.same) v.earned));
    }

choose :
    {cfg : LivenessConfig} {ts : List ℕ} (b : Bool) {x y : Liveness}
    → Tracks cfg ts x
    → Tracks cfg ts y
    → Tracks cfg ts (if b then x else y)
choose true p q = p
choose false p q = q

tick_at-Tracks :
    (cfg : LivenessConfig) (ts : List ℕ) (l : Liveness) (now : ℕ)
    → Tracks cfg ts l
    → Tracks cfg ts (tick_at l now)
unfolding tick_at
tick_at-Tracks cfg ts l now v =
    choose l.have_good
      (choose (is_up l.state && ltb (l.cfg.down_after + l.cfg.ride_through) (now - l.last_good))
        (record { same = v.same; latest = v.latest; streak = omega arith; earned = tt })
        (choose (is_down l.state && ltb l.cfg.down_after (now - l.last_good))
          (record { same = v.same; latest = v.latest; streak = omega arith; earned = v.earned }) v))
      v

after-Tracks : (cfg : LivenessConfig) (es : List Event) → Tracks cfg (echoes es) (after cfg es)
unfolding after drive new_liveness
after-Tracks cfg [] = record { same = refl; latest = refl; streak = omega arith; earned = tt }
after-Tracks cfg (echo t ∷ es) =
    record_echo-Tracks cfg (echoes es) (after cfg es) t (after-Tracks cfg es)
after-Tracks cfg (tick t ∷ es) =
    tick_at-Tracks cfg (echoes es) (after cfg es) t (after-Tracks cfg es)

-- After any history that leaves the path up there was a time at which the newest
-- `up_after_successes` echoes were consecutive, each at most `down_after` after the one before.
pub after-Earned :
    (cfg : LivenessConfig) (es : List Event)
    → Earned (after cfg es).state cfg.up_after_successes cfg.down_after (echoes es)
after-Earned cfg es = (after-Tracks cfg es).earned

pick_state :
    {s : PathState} (b : Bool) (x y : Liveness)
    → x.state ≡ s
    → y.state ≡ s
    → (if b then x else y).state ≡ s
pick_state true x y p q = p
pick_state false x y p q = q

stays_down : (l : Liveness) (now : ℕ) → l.state ≡ down → (tick_at l now).state ≡ down
unfolding tick_at
stays_down l now e =
    pick_state l.have_good _ l
      (pick_state (is_up l.state && ltb (l.cfg.down_after + l.cfg.ride_through) (now - l.last_good))
        _ _ refl (pick_state (is_down l.state && ltb l.cfg.down_after (now - l.last_good)) _ _ e e))
      e

up_or_down : (s : PathState) → (s ≡ down) ⊎ (s ≡ up)
up_or_down down = inl refl
up_or_down up = inr refl

-- The two tests of `Tick` for a path that is up.
tick_up :
    (l : Liveness) (now : ℕ) (b : Bool)
    → l.have_good ≡ true
    → l.state ≡ up
    → ltb (l.cfg.down_after + l.cfg.ride_through) (now - l.last_good) ≡ b
    → (tick_at l now).state ≡ (if b then down else up)
unfolding tick_at
tick_up l now true h u e =
    ap (λ (x : Liveness). x.state)
      (if_true l.have_good _ _ h
        ∙ if_true (is_up l.state && ltb (l.cfg.down_after + l.cfg.ride_through) (now - l.last_good))
            _ _
            (ap (λ s. is_up s && ltb (l.cfg.down_after + l.cfg.ride_through) (now - l.last_good)) u
              ∙ e))
tick_up l now false h u e =
    ap (λ (x : Liveness). x.state)
      (if_true l.have_good _ _ h
        ∙ if_false
            (is_up l.state && ltb (l.cfg.down_after + l.cfg.ride_through) (now - l.last_good)) _ _
            (ap (λ s. is_up s && ltb (l.cfg.down_after + l.cfg.ride_through) (now - l.last_good)) u
              ∙ e)
        ∙ if_false (is_down l.state && ltb l.cfg.down_after (now - l.last_good)) _ _
            (ap (λ s. is_down s && ltb l.cfg.down_after (now - l.last_good)) u))
    ∙ u

-- What a history with an echo knows of the latest one.
latest_echo :
    (cfg : LivenessConfig) (es : List Event) (t : ℕ) (ts : List ℕ)
    → echoes es ≡ t ∷ ts
    → ((after cfg es).cfg ≡ cfg)
      × ((after cfg es).have_good ≡ true)
      × ((after cfg es).last_good ≡ t)
latest_echo cfg es t ts e =
    let v = after-Tracks cfg es in
    let (h, l) = subst (Latest (after cfg es).have_good (after cfg es).last_good) e v.latest in
    (v.same, h, l)

silence_test :
    (cfg : LivenessConfig) (es : List Event) (t now : ℕ) (ts : List ℕ)
    → echoes es ≡ t ∷ ts
    → ltb
        ((after cfg es).cfg.down_after + (after cfg es).cfg.ride_through)
        (now - (after cfg es).last_good)
      ≡ ltb (cfg.down_after + cfg.ride_through) (now - t)
silence_test cfg es t now ts e =
    let (c, _, l) = latest_echo cfg es t ts e in
    λ i. ltb ((c i).down_after + (c i).ride_through) (now - l i)

-- A tick more than `down_after + ride_through` after the latest echo leaves the path down, whatever
-- went before, and down it stays over any further ticks.
pub after-silence :
    (cfg : LivenessConfig) (es : List Event) (t : ℕ) (ts : List ℕ) (now : ℕ) (ticks : List ℕ)
    → echoes es ≡ t ∷ ts
    → t + (cfg.down_after + cfg.ride_through) < now
    → (after cfg (map tick ticks ++ (tick now ∷ es))).state ≡ down
unfolding after drive
after-silence cfg es t ts now [] e late = elim (up_or_down (after cfg es).state) [
  | inl d ↦ stays_down (after cfg es) now d
  | inr u ↦ tick_up (after cfg es) now true (latest_echo cfg es t ts e).1 u (
      silence_test cfg es t now ts e
      ∙ lt→ltb (cfg.down_after + cfg.ride_through) (now - t) (omega arith))
]
after-silence cfg es t ts now (n ∷ ticks) e late =
    stays_down (after cfg (map tick ticks ++ (tick now ∷ es))) n
      (after-silence cfg es t ts now ticks e late)

abbrev pub AllWithin : ℕ → List ℕ → Type 0
AllWithin hi [] = Unit
AllWithin hi (n ∷ l) = (n ≤ hi) × AllWithin hi l

echoes-ticks : (ticks : List ℕ) (es : List Event) → echoes (map tick ticks ++ es) ≡ echoes es
echoes-ticks [] es = refl
echoes-ticks (n ∷ ticks) es = echoes-ticks ticks es

-- A path that is up stays up over any ticks at most `down_after + ride_through` after the latest echo.
pub after-ride_through :
    (cfg : LivenessConfig) (es : List Event) (t : ℕ) (ts : List ℕ) (ticks : List ℕ)
    → echoes es ≡ t ∷ ts
    → (after cfg es).state ≡ up
    → AllWithin (t + (cfg.down_after + cfg.ride_through)) ticks
    → (after cfg (map tick ticks ++ es)).state ≡ up
unfolding after drive
after-ride_through cfg es t ts [] e u h = u
after-ride_through cfg es t ts (n ∷ ticks) e u (h, hs) =
    let before = map tick ticks ++ es in
    let e' = echoes-ticks ticks es ∙ e in
    tick_up (after cfg before) n false (latest_echo cfg before t ts e').1
      (after-ride_through cfg es t ts ticks e u hs)
      (silence_test cfg before t n ts e'
        ∙ le→ltb_false (cfg.down_after + cfg.ride_through) (n - t) (omega arith))
