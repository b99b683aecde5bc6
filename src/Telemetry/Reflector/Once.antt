-- ===== src/Telemetry/Reflector/Once.antt =====
-- The cases of `acceptLocked`: a probe that is taken moves the mark, and one below it is a replay.
use fecalia.Base.{
  ℕ, ◌<◌, ◌≤◌, ◌≡◌, inl, inr, refl, sym, ap, ◌∙◌, Bool, true, false, ◌&&◌, Option, none, some, List,
  [], arith, leb, le→leb, lt→leb_false, dec_le, ◌==◌, ==_iff, Bool-cases, if_true, if_false,
}
use mathlib.Core.Path.{subst}
use fecalia.Telemetry.Replay.{AntiReplay, accept_seq, put}
use fecalia.Telemetry.Reflector.{
  ReflectorPath, Reflector, bootstrap, current, adoption, Verdict, failed, replayed, reflected,
  draw_challenge, open_path, find_path, judge_current, accept_current, adopt_with, decide_probe,
  accept_probe,
}

-- The session is live on the path, and its mark is at the sequence at least.
abbrev pub Taken : ℕ → ℕ → Option ReflectorPath → Type 0
Taken session seq none = ⊥
Taken session seq (some st) =
    (st.adopted ≡ true) × (st.session ≡ session) × (st.guard.have ≡ true) × (seq ≤ st.guard.high)

abbrev pub LiveSession : ℕ → Option ReflectorPath → Type 0
LiveSession session none = ⊥
LiveSession session (some st) = st.session ≡ session

-- A verdict that advances a mark.
abbrev pub is_taken : Verdict → Bool
is_taken failed = false
is_taken replayed = false
is_taken (reflected _ bootstrap _) = false
is_taken (reflected _ current _) = true
is_taken (reflected _ adoption _) = true

pub put-same : {A : Type 0} (m : ℕ → Option A) (k : ℕ) (a : A) → put m k a k ≡ some a
unfolding put
put-same m k a = if_true (k == k) _ _ ((==_iff k k).1 refl)

pub put-other :
    {A : Type 0} (m : ℕ → Option A) (k j : ℕ) (a : A) → (j == k) ≡ false → put m k a j ≡ m j
unfolding put
put-other m k j a n = if_false (j == k) _ _ n

-- What `Accept` answers at or below the mark, and what else.
pub data Answer (a : AntiReplay) (seq : ℕ) : AntiReplay × Bool → Type 0 where
  refused : a.have ≡ true → seq ≤ a.high → Answer a seq (a, false)
  advanced :
      (a.have ≡ true → a.high < seq) → Answer a seq (record { high = seq; have = true }, true)

Answer-at :
    (high : ℕ) (have : Bool) (seq : ℕ)
    → Answer
        (record { high = high; have = have })
        seq
        (accept_seq (record { high = high; have = have }) seq)
unfolding accept_seq
Answer-at high false seq = advanced (λ e. cc e)
Answer-at high true seq = elim (dec_le seq high) [
  | yes h ↦
      subst (Answer (record { high = high; have = true }) seq)
        (sym (if_true (leb seq high) _ _ (le→leb seq high h))) (refused refl h)
  | no h ↦
      subst (Answer (record { high = high; have = true }) seq)
        (sym (if_false (leb seq high) _ _ (lt→leb_false seq high (omega arith))))
        (advanced (λ _. omega arith))
]

pub answer : (a : AntiReplay) (seq : ℕ) → Answer a seq (accept_seq a seq)
answer a seq = Answer-at a.high a.have seq

&&-parts : (a b : Bool) → (a && b) ≡ true → (a ≡ true) × (b ≡ true)
&&-parts true b e = (refl, e)
&&-parts false b e = cc e

-- The three cases of a probe on a known path.
pub decide_cases :
    (P : Reflector × Verdict → Type 0) (r : Reflector) (p : ℕ) (st : ReflectorPath) (s n c : ℕ)
    → (st.adopted ≡ true → s ≡ st.session → P (judge_current r p st (accept_seq st.guard n)))
    → ((st.adopted && s == st.session) ≡ false → P (adopt_with r p st s n (draw_challenge r.rand)))
    → P (r, reflected st.challenge bootstrap false)
    → P (decide_probe r p st s n c)
unfolding decide_probe accept_current
decide_cases P r p st s n c f g h = elim (Bool-cases (st.adopted && s == st.session)) [
  | inl e ↦
      let (on, eq) = &&-parts st.adopted (s == st.session) e in
      subst P (sym (if_true (st.adopted && s == st.session) _ _ e))
        (f on ((==_iff s st.session).0 eq))
  | inr e ↦
      subst P (sym (if_false (st.adopted && s == st.session) _ _ e))
        (elim (Bool-cases (c == st.challenge)) [
          | inl d ↦ subst P (sym (if_true (c == st.challenge) _ _ d)) (g e)
          | inr d ↦ subst P (sym (if_false (c == st.challenge) _ _ d)) h
        ])
]

-- A probe on a path that is found, or opened first, which touches no other path.
pub found_cases :
    (P : Reflector × Verdict → Type 0) (r : Reflector) (q s n c : ℕ) (o : Option ReflectorPath)
    → P (record r { rand = [] }, failed)
    → ((r₁ : Reflector) (st : ReflectorPath)
        → ((j : ℕ) → (j == q) ≡ false → r₁.paths j ≡ r.paths j)
        → P (decide_probe r₁ q st s n c))
    → P (elim (find_path r q o) [
      | none ↦ (record r { rand = [] }, failed)
      | some found ↦ decide_probe found.1 q found.0 s n c
    ])
unfolding find_path open_path
found_cases P r q s n c (some st) f g = g r st (λ j _. refl)
found_cases P r q s n c none f g = opened_cases (draw_challenge r.rand)
  where
    opened_cases :
        (d : Option (ℕ × List ℕ))
        → P (elim (open_path r q d) [
          | none ↦ (record r { rand = [] }, failed)
          | some found ↦ decide_probe found.1 q found.0 s n c
        ])
    opened_cases none = f
    opened_cases (some (ch, l)) = g _ _ (λ j e. put-other r.paths q j _ e)

module _ (session seq p : ℕ) where
  -- A probe that is taken is at or below the mark afterwards.
  judge-Taken :
      (r : Reflector) (st : ReflectorPath) (o : AntiReplay × Bool)
      → Answer st.guard seq o
      → st.adopted ≡ true
      → session ≡ st.session
      → is_taken (judge_current r p st o).1 ≡ true
      → Taken session seq ((judge_current r p st o).0.paths p)
  unfolding judge_current
  judge-Taken r st _ (refused _ _) on eq t = cc t
  judge-Taken r st _ (advanced _) on eq t =
      subst (Taken session seq) (sym (put-same r.paths p _)) (on, sym eq, refl, omega arith)

  adopt-Taken :
      (r : Reflector) (st : ReflectorPath) (d : Option (ℕ × List ℕ))
      → is_taken (adopt_with r p st session seq d).1 ≡ true
      → Taken session seq ((adopt_with r p st session seq d).0.paths p)
  unfolding adopt_with accept_seq
  adopt-Taken r st none t = cc t
  adopt-Taken r st (some (ch, l)) t =
      subst (Taken session seq) (sym (put-same r.paths p _)) (refl, refl, refl, omega arith)

  pub accept_probe-Taken :
      (r : Reflector) (c : ℕ)
      → is_taken (accept_probe r p session seq c).1 ≡ true
      → Taken session seq ((accept_probe r p session seq c).0.paths p)
  unfolding accept_probe
  accept_probe-Taken r c =
      let P : Reflector × Verdict → Type 0 =
        λ o. is_taken o.1 ≡ true → Taken session seq (o.0.paths p) in
      found_cases P r p session seq c (r.paths p) (λ t. cc t)
        (λ r₁ st _.
          decide_cases P r₁ p st session seq c
            (λ on eq. judge-Taken r₁ st _ (answer st.guard seq) on eq)
            (λ _. adopt-Taken r₁ st (draw_challenge r₁.rand)) (λ t. cc t))

  -- At or below the mark a probe is a replay.
  judge-replayed :
      (r : Reflector) (st : ReflectorPath) (o : AntiReplay × Bool)
      → Answer st.guard seq o
      → st.guard.have ≡ true
      → seq ≤ st.guard.high
      → (judge_current r p st o).1 ≡ replayed
  unfolding judge_current
  judge-replayed r st _ (refused _ _) have le = refl
  judge-replayed r st _ (advanced f) have le = absurd (omega (arith, f have, le))

  pub found-replayed :
      (r : Reflector) (c : ℕ) (o : Option ReflectorPath)
      → Taken session seq o
      → (elim (find_path r p o) as (λ _. Reflector × Verdict) [
        | none ↦ (record r { rand = [] }, failed)
        | some found ↦ decide_probe found.1 p found.0 session seq c
      ]).1
        ≡ replayed
  unfolding find_path decide_probe accept_current
  found-replayed r c none t = absurd t
  found-replayed r c (some st) (on, live, have, le) =
      ap (λ (o : Reflector × Verdict). o.1)
        (if_true (st.adopted && session == st.session) _ _
          (ap (λ b. b && session == st.session) on ∙ (==_iff session st.session).1 (sym live)))
      ∙ judge-replayed r st _ (answer st.guard seq) have le
