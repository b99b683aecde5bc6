-- ===== src/Telemetry/Reflector/Session.antt =====
-- Runs of probes: a probe that was taken is not taken again while its session lives on the path.
use fecalia.Base.{
  ℕ, ◌≡◌, ◌≢◌, inl, inr, refl, sym, ap, ◌∙◌, Bool, true, false, ◌&&◌, Option, none, some, List, [],
  ◌∷◌, arith, ◌==◌, ==_iff, Bool-cases,
}
use mathlib.Core.Path.{subst}
use fecalia.Telemetry.Replay.{AntiReplay}
use fecalia.Telemetry.Reflector.{
  ReflectorPath, Reflector, Verdict, failed, replayed, find_path, draw_challenge, judge_current,
  adopt_with, decide_probe, accept_probe,
}
use fecalia.Telemetry.Reflector.Once.{
  Taken, LiveSession, is_taken, put-same, put-other, Answer, refused, advanced, answer,
  decide_cases, found_cases, accept_probe-Taken, found-replayed,
}

-- A probe on the wire: its path, session, sequence and echoed challenge.
pub record Arrival : Type 0 where
  pub path_id : ℕ
  pub session : ℕ
  pub seq : ℕ
  pub echoed : ℕ

unfoldable pub arrive : Reflector → Arrival → Reflector
arrive r a = (accept_probe r a.path_id a.session a.seq a.echoed).0

unfoldable pub arrive_all : Reflector → List Arrival → Reflector
arrive_all r [] = r
arrive_all r (a ∷ l) = arrive_all (arrive r a) l

-- The session stays the live one of the path after each of the probes.
abbrev pub StaysLive : ℕ → ℕ → Reflector → List Arrival → Type 0
StaysLive session p r [] = Unit
StaysLive session p r (a ∷ l) =
    LiveSession session ((arrive r a).paths p) × StaysLive session p (arrive r a) l

true≢false : true ≢ false
true≢false e = cc e

module _ (session seq p : ℕ) where
  abbrev Kept : Reflector × Verdict → Type 0
  Kept o = LiveSession session (o.0.paths p) → Taken session seq (o.0.paths p)

  judge-Kept :
      (r : Reflector) (st : ReflectorPath) (n : ℕ) (o : AntiReplay × Bool)
      → Answer st.guard n o
      → r.paths p ≡ some st
      → Taken session seq (some st)
      → Kept (judge_current r p st o)
  unfolding judge_current
  judge-Kept r st n _ (refused _ _) e t live = subst (Taken session seq) (sym e) t
  judge-Kept r st n _ (advanced f) e (on, same, have, le) live =
      subst (Taken session seq) (sym (put-same r.paths p _))
        (on, same, refl, omega (arith, f have, le))

  -- Another session that is adopted is live afterwards.
  adopt-other :
      (r : Reflector) (st : ReflectorPath) (s n : ℕ) (d : Option (ℕ × List ℕ))
      → LiveSession session ((adopt_with r p st s n d).0.paths p)
      → s ≡ session
  unfolding adopt_with
  adopt-other r st s n none live = subst (LiveSession session) (put-same r.paths p _) live
  adopt-other r st s n (some (ch, l)) live = subst (LiveSession session) (put-same r.paths p _) live

  decide-Kept :
      (r : Reflector) (st : ReflectorPath) (s n c : ℕ)
      → r.paths p ≡ some st
      → Taken session seq (some st)
      → Kept (decide_probe r p st s n c)
  decide-Kept r st s n c e (on, same, have, le) =
      decide_cases Kept r p st s n c
        (λ _ _. judge-Kept r st n _ (answer st.guard n) e (on, same, have, le))
        (λ f live. absurd (
          true≢false (
            sym (
              ap (λ b. b && s == st.session) on
              ∙ (==_iff s st.session).1
                  (adopt-other r st s n (draw_challenge r.rand) live ∙ sym same))
            ∙ f)))
        (λ _. subst (Taken session seq) (sym e) (on, same, have, le))

  -- A probe on another path touches nothing.
  judge_other :
      (q : ℕ) (r : Reflector) (st : ReflectorPath) (o : AntiReplay × Bool)
      → (p == q) ≡ false
      → (judge_current r q st o).0.paths p ≡ r.paths p
  unfolding judge_current
  judge_other q r st (g, true) e = put-other r.paths q p _ e
  judge_other q r st (g, false) e = refl

  adopt_other :
      (q : ℕ) (r : Reflector) (st : ReflectorPath) (s n : ℕ) (d : Option (ℕ × List ℕ))
      → (p == q) ≡ false
      → (adopt_with r q st s n d).0.paths p ≡ r.paths p
  unfolding adopt_with
  adopt_other q r st s n none e = put-other r.paths q p _ e
  adopt_other q r st s n (some (ch, l)) e = put-other r.paths q p _ e

  apart_lem :
      (r : Reflector) (q s n c : ℕ)
      → (p == q) ≡ false
      → (accept_probe r q s n c).0.paths p ≡ r.paths p
  unfolding accept_probe
  apart_lem r q s n c e =
      let P : Reflector × Verdict → Type 0 = λ o. o.0.paths p ≡ r.paths p in
      found_cases P r q s n c (r.paths q) refl (λ r₁ st f.
        decide_cases P r₁ q st s n c (λ _ _. judge_other q r₁ st _ e ∙ f p e)
          (λ _. adopt_other q r₁ st s n (draw_challenge r₁.rand) e ∙ f p e) (f p e))

  same_lem :
      (r : Reflector) (s n c : ℕ) (o : Option ReflectorPath)
      → r.paths p ≡ o
      → Taken session seq o
      → Kept (accept_probe r p s n c)
  unfolding accept_probe find_path
  same_lem r s n c none e t = absurd t
  same_lem r s n c (some st) e t =
      subst
        (λ (o : Option ReflectorPath). Kept (elim (find_path r p o) as (λ _. Reflector × Verdict) [
          | none ↦ (record r { rand = [] }, failed)
          | some found ↦ decide_probe found.1 p found.0 s n c
        ]))
        (sym e) (decide-Kept r st s n c e t)

  arrive-Taken :
      (r : Reflector) (a : Arrival)
      → Taken session seq (r.paths p)
      → LiveSession session ((arrive r a).paths p)
      → Taken session seq ((arrive r a).paths p)
  unfolding arrive
  arrive-Taken r a t live = elim (Bool-cases (p == a.path_id)) [
    | inl e ↦
        subst (λ q. Kept (accept_probe r q a.session a.seq a.echoed)) ((==_iff p a.path_id).0 e)
          (same_lem r a.session a.seq a.echoed (r.paths p) refl t) live
    | inr e ↦ subst (Taken session seq) (sym (apart_lem r a.path_id a.session a.seq a.echoed e)) t
  ]

  arrive_all-Taken :
      (r : Reflector) (l : List Arrival)
      → Taken session seq (r.paths p)
      → StaysLive session p r l
      → Taken session seq ((arrive_all r l).paths p)
  unfolding arrive_all
  arrive_all-Taken r [] t s = t
  arrive_all-Taken r (a ∷ l) t (live, s) =
      arrive_all-Taken (arrive r a) l (arrive-Taken r a t live) s

-- A probe that was taken, as one of the live session or by adopting its session, is refused as a
-- replay whenever it comes again, whatever challenge it then carries and whatever probes came
-- between, as long as its session stayed the live one of its path.
pub accept_probe-replayed :
    (r : Reflector) (p session seq echoed : ℕ) (later : List Arrival) (echoed' : ℕ)
    → is_taken (accept_probe r p session seq echoed).1 ≡ true
    → StaysLive session p (accept_probe r p session seq echoed).0 later
    → (accept_probe
        (arrive_all (accept_probe r p session seq echoed).0 later)
        p
        session
        seq
        echoed').1
      ≡ replayed
unfolding accept_probe
accept_probe-replayed r p session seq echoed later echoed' taken live =
    let first = (accept_probe r p session seq echoed).0 in
    let last = arrive_all first later in
    found-replayed session seq p last echoed' (last.paths p) (
      arrive_all-Taken session seq p first later (accept_probe-Taken session seq p r echoed taken)
        live)
