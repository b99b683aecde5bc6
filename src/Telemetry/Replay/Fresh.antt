-- ===== src/Telemetry/Replay/Fresh.antt =====
-- What a replay filter lets through over a whole run of control frames.
use fecalia.Base.{
  ℕ, ◌<◌, ◌≡◌, inl, inr, refl, sym, ap, ◌∙◌, Bool, true, false, not, ◌&&◌, Option, none, some, List,
  [], ◌∷◌, arith, leb, ◌==◌, if◌then◌else◌, if_true, if_false, Bool-cases, ==_iff, map, dec_le,
  le→leb, lt→leb_false,
}
use mathlib.Core.Path.{subst}
use fecalia.Telemetry.Replay.{AntiReplay, accept_seq, ControlGuard, created, put, admit_control}

-- The mark that a filter stands at.
abbrev pub mark : Option AntiReplay → Option ℕ
mark none = none
mark (some a) = if a.have then some a.high else none

abbrev pub Ahead : Option ℕ → ℕ → Type 0
Ahead none seq = Unit
Ahead (some h) seq = h < seq

-- Strictly rising, from above the mark on.
abbrev pub Rising : Option ℕ → List ℕ → Type 0
Rising h [] = Unit
Rising h (s ∷ l) = Ahead h s × Rising (some s) l

abbrev pub kept : Bool → ℕ → List ℕ → List ℕ
kept true seq l = seq ∷ l
kept false seq l = l

-- The sequences of the type `t` that are let through, over a run of control frames.
unfoldable pub let_through : ControlGuard → ℕ → List (ℕ × ℕ) → List ℕ
let_through g t [] = []
let_through g t ((u, seq) ∷ l) =
    let (g', fresh) = admit_control g u seq in
    let rest = let_through g' t l in kept (u == t && fresh) seq rest

-- What `Accept` does at a mark.
data Accepted (o : Option AntiReplay) (seq : ℕ) : AntiReplay × Bool → Type 0 where
  stale :
      (a : AntiReplay) → mark (some a) ≡ mark o → ¬ (Ahead (mark o) seq) → Accepted o seq (a, false)
  fresh :
      (a : AntiReplay) → mark (some a) ≡ some seq → Ahead (mark o) seq → Accepted o seq (a, true)

accept_at :
    (high : ℕ) (have : Bool) (seq : ℕ)
    → Accepted
        (some (record { high = high; have = have }))
        seq
        (accept_seq (record { high = high; have = have }) seq)
unfolding accept_seq
accept_at high false seq = fresh _ refl tt
accept_at high true seq = elim (dec_le seq high) [
  | yes h ↦
      subst (Accepted (some (record { high = high; have = true })) seq)
        (sym (if_true (leb seq high) _ _ (le→leb seq high h)))
        (stale _ refl (λ (k : high < seq). omega arith))
  | no h ↦
      subst (Accepted (some (record { high = high; have = true })) seq)
        (sym (if_false (leb seq high) _ _ (lt→leb_false seq high (omega arith))))
        (fresh _ refl (omega arith))
]

accept_lem : (o : Option AntiReplay) (seq : ℕ) → Accepted o seq (accept_seq (created o) seq)
unfolding accept_seq
accept_lem none seq = fresh _ refl tt
accept_lem (some a) seq = accept_at a.high a.have seq

-- What a control frame of the type `u` does to the filter of the type `t`.
data Stepped (g : ControlGuard) (t : ℕ) (seq : ℕ) : ControlGuard × Bool → Type 0 where
  dropped :
      (g' : ControlGuard)
      → g'.secure ≡ g.secure
      → mark (g'.guards t) ≡ mark (g.guards t)
      → ¬ (Ahead (mark (g.guards t)) seq)
      → Stepped g t seq (g', false)
  passed :
      (g' : ControlGuard)
      → g'.secure ≡ g.secure
      → mark (g'.guards t) ≡ some seq
      → Ahead (mark (g.guards t)) seq
      → Stepped g t seq (g', true)

put_same : (m : ℕ → Option AntiReplay) (t : ℕ) (a : AntiReplay) → put m t a t ≡ some a
unfolding put
put_same m t a = if_true (t == t) _ _ ((==_iff t t).1 refl)

stepped :
    (g : ControlGuard) (t seq : ℕ) (o : AntiReplay × Bool)
    → Accepted (g.guards t) seq o
    → Stepped g t seq (record g { guards = put g.guards t o.0 }, o.1)
stepped g t seq (a, _) (stale _ e n) = dropped _ refl (ap mark (put_same g.guards t a) ∙ e) n
stepped g t seq (a, _) (fresh _ e h) = passed _ refl (ap mark (put_same g.guards t a) ∙ e) h

admit_control_lem :
    (g : ControlGuard) (t seq : ℕ) → g.secure t ≡ true → Stepped g t seq (admit_control g t seq)
unfolding admit_control
admit_control_lem g t seq s =
    subst (Stepped g t seq) (sym (if_false (not (g.secure t)) _ _ (ap not s)))
      (stepped g t seq (accept_seq (created (g.guards t)) seq) (accept_lem (g.guards t) seq))

-- The filters of the other types stay as they are.
admit_control_other :
    (g : ControlGuard) (t u seq : ℕ)
    → (u == t) ≡ false
    → ((admit_control g u seq).0.secure ≡ g.secure)
      × ((admit_control g u seq).0.guards t ≡ g.guards t)
unfolding admit_control put
admit_control_other g t u seq n =
    let Same : ControlGuard × Bool → Type 0 =
      λ o. (o.0.secure ≡ g.secure) × (o.0.guards t ≡ g.guards t) in
    let apart : (t == u) ≡ false = ground arith in
    elim (Bool-cases (not (g.secure u))) [
      | inl e ↦ subst Same (sym (if_true (not (g.secure u)) _ _ e)) (refl, refl)
      | inr e ↦
          subst Same (sym (if_false (not (g.secure u)) _ _ e)) (refl, if_false (t == u) _ _ apart)
    ]

secure_still :
    (g : ControlGuard) (t seq : ℕ) (o : ControlGuard × Bool)
    → g.secure t ≡ true
    → Stepped g t seq o
    → o.0.secure t ≡ true
secure_still g t seq (_, _) s (dropped _ e _ _) = ap (λ f. f t) e ∙ s
secure_still g t seq (_, _) s (passed _ e _ _) = ap (λ f. f t) e ∙ s

kept-Rising :
    (g : ControlGuard) (t seq : ℕ) (o : ControlGuard × Bool) (rest : List ℕ)
    → Stepped g t seq o
    → Rising (mark (o.0.guards t)) rest
    → Rising (mark (g.guards t)) (kept o.1 seq rest)
kept-Rising g t seq (_, _) rest (dropped _ _ e _) r = subst (λ h. Rising h rest) e r
kept-Rising g t seq (_, _) rest (passed _ _ e h) r = (h, subst (λ m. Rising m rest) e r)

-- Over any run of control frames, of whatever types, the sequences of a type that matters for
-- security that are let through rise strictly, from above the mark on: none is let through twice.
pub let_through-Rising :
    (g : ControlGuard) (t : ℕ) (frames : List (ℕ × ℕ))
    → g.secure t ≡ true
    → Rising (mark (g.guards t)) (let_through g t frames)
unfolding let_through
let_through-Rising g t [] s = tt
let_through-Rising g t ((u, seq) ∷ l) s = elim (Bool-cases (u == t)) [
  | inl e ↦
      let step = admit_control_lem g t seq s in
      let o = admit_control g t seq in
      let later = let_through-Rising o.0 t l (secure_still g t seq o s step) in
      subst (λ v. Rising (mark (g.guards t)) (let_through g t ((v, seq) ∷ l)))
        (sym ((==_iff u t).0 e))
        (subst (λ b. Rising (mark (g.guards t)) (kept (b && o.1) seq (let_through o.0 t l)))
          (sym ((==_iff t t).1 refl)) (kept-Rising g t seq o _ step later))
  | inr n ↦
      let (same, mine) = admit_control_other g t u seq n in
      let o = admit_control g u seq in
      let later = let_through-Rising o.0 t l (ap (λ f. f t) same ∙ s) in
      subst (λ b. Rising (mark (g.guards t)) (kept (b && o.1) seq (let_through o.0 t l))) (sym n)
        (subst (λ m. Rising (mark m) (let_through o.0 t l)) mine later)
]

let_in :
    (g : ControlGuard) (t seq : ℕ) (o : ControlGuard × Bool)
    → Stepped g t seq o
    → Ahead (mark (g.guards t)) seq
    → (o.1 ≡ true) × (o.0.secure ≡ g.secure) × (mark (o.0.guards t) ≡ some seq)
let_in g t seq (_, _) (dropped _ _ _ n) h = absurd (n h)
let_in g t seq (_, _) (passed _ same at _) h = (refl, same, at)

-- A strictly rising stream of one type passes whole.
pub let_through-map :
    (g : ControlGuard) (t : ℕ) (seqs : List ℕ)
    → g.secure t ≡ true
    → Rising (mark (g.guards t)) seqs
    → let_through g t (map (λ (seq : ℕ). (t, seq)) seqs) ≡ seqs
unfolding let_through
let_through-map g t [] s r = refl
let_through-map g t (seq ∷ l) s (h, r) =
    let o = admit_control g t seq in
    let (new, same, at) = let_in g t seq o (admit_control_lem g t seq s) h in
    let later =
      let_through-map o.0 t l (ap (λ f. f t) same ∙ s) (subst (λ m. Rising m l) (sym at) r) in
    ap (λ b. kept (b && o.1) seq (let_through o.0 t (map (λ (n : ℕ). (t, n)) l)))
      ((==_iff t t).1 refl)
    ∙ ap (λ b. kept b seq (let_through o.0 t (map (λ (n : ℕ). (t, n)) l))) new
    ∙ ap (λ (xs : List ℕ). seq ∷ xs) later
