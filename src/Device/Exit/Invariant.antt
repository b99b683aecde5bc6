-- ===== src/Device/Exit/Invariant.antt =====
-- The invariant of the selector, and what a switch does.
use fecalia.Base.{
  ℕ, ◌≡◌, inl, inr, refl, sym, ap, ◌∙◌, Bool, true, false, ◌&&◌, Option, none, some, List, [], ◌∷◌,
  ◌==◌, ==_iff, if◌then◌else◌, if_true, if_false, Bool-cases, arith,
}
use mathlib.Core.Path.{subst}
use fecalia.Device.Exit.{
  ExitPeer, contains, Engine, Selector, controlled, subscribe, resubscribe, Switched, done, unknown,
  refused, repoint, switch_to, switch,
}

abbrev pub is_known : Option ExitPeer → Bool
is_known none = false
is_known (some _) = true

abbrev pub AllKnown : (ℕ → Option ExitPeer) → List ℕ → Type 0
AllKnown exits [] = Unit
AllKnown exits (n ∷ l) = (is_known (exits n) ≡ true) × AllKnown exits l

-- What a controller's callback captures: its own name, on the active exit, and nothing elsewhere.
abbrev pub armed : Option (ℕ → Bool) → ℕ → ℕ → Option ℕ
armed ctrls active n = if controlled ctrls n && n == active then some n else none

-- The active exit and the order's names are configured exits, and exactly the active exit's
-- controller drives the selector.
pub record IsValid (s : Selector) : Type 0 where
  pub active : is_known (s.exits s.active) ≡ true
  pub order : AllKnown s.exits s.order
  pub subs : (n : ℕ) → s.subs n ≡ armed s.ctrls s.active n

-- A subscription changes the callback of its name only, if that has a controller.
pub data Subscribed (s : Selector) (name : ℕ) (callback : Option ℕ) : Selector → Type 0 where
  subscribed :
      (subs : ℕ → Option ℕ)
      → ((n : ℕ) → subs n ≡ (if controlled s.ctrls name && n == name then callback else s.subs n))
      → Subscribed s name callback (record s { subs = subs })

pub subscribe_lem :
    (s : Selector) (name : ℕ) (callback : Option ℕ)
    → Subscribed s name callback (subscribe s name callback)
unfolding subscribe
subscribe_lem s name callback = elim (Bool-cases (controlled s.ctrls name)) [
  | inl e ↦
      subst (Subscribed s name callback) (sym (if_true (controlled s.ctrls name) _ _ e))
        (subscribed _ (λ n. ap (λ b. if b && n == name then callback else s.subs n) (sym e)))
  | inr e ↦
      subst (Subscribed s name callback) (sym (if_false (controlled s.ctrls name) _ _ e))
        (subscribed s.subs (λ n. ap (λ b. if b && n == name then callback else s.subs n) (sym e)))
]

-- The two subscriptions of a switch, at a name: which of the tests hold is given by Booleans.
moved :
    (to : Bool) (from : Bool) (c_to c_from c_n : Bool) (x y : Option ℕ)
    → (to && from) ≡ false
    → (if to then c_n else false) ≡ (if to then c_to else false)
    → (if from then c_n else false) ≡ (if from then c_from else false)
    → (if to then x else y) ≡ y
    → (if c_to && to
        then x
        else (if c_from && from then none else (if c_n && from then y else none)))
      ≡ (if c_n && to then y else none)
moved to from c_to c_from c_n x y apart p q r = ground arith

-- A test of equal names carries over what is said of them.
pub at_test :
    {A : Type 0} (n m : ℕ) (f : ℕ → A) (z : A)
    → (if n == m then f n else z) ≡ (if n == m then f m else z)
at_test n m f z = elim (Bool-cases (n == m)) [
  | inl e ↦ ap (λ j. if n == m then f j else z) ((==_iff n m).0 e)
  | inr e ↦ if_false (n == m) _ _ e ∙ sym (if_false (n == m) _ _ e)
]

pub same_some : (n m : ℕ) → (if n == m then some m else some n) ≡ some n
same_some n m = elim (Bool-cases (n == m)) [
  | inl e ↦ if_true (n == m) _ _ e ∙ ap some (sym ((==_iff n m).0 e))
  | inr e ↦ if_false (n == m) _ _ e
]

-- A move of the subscription from one exit to another.
data Resubscribed (s : Selector) (to : ℕ) : Selector → Type 0 where
  resubscribed :
      (subs : ℕ → Option ℕ)
      → ((n : ℕ) → subs n ≡ armed s.ctrls to n)
      → Resubscribed s to (record s { subs = subs })

then-Subscribed :
    (s : Selector) (from to : ℕ) (s₁ s₂ : Selector)
    → (from == to) ≡ false
    → ((n : ℕ) → s.subs n ≡ armed s.ctrls from n)
    → Subscribed s from none s₁
    → Subscribed s₁ to (some to) s₂
    → Resubscribed s to s₂
then-Subscribed s from to _ _ apart h (subscribed subs₁ f) (subscribed subs₂ g) =
    resubscribed subs₂ λ n.
      g n
      ∙ ap (λ x. if controlled s.ctrls to && n == to then some to else x)
          (f n ∙ ap (λ x. if controlled s.ctrls from && n == from then none else x) (h n))
      ∙ moved (n == to) (n == from) (controlled s.ctrls to) (controlled s.ctrls from)
          (controlled s.ctrls n) (some to) (some n) (ground arith)
          (at_test n to (controlled s.ctrls) false) (at_test n from (controlled s.ctrls) false)
          (same_some n to)

resubscribe_lem :
    (s : Selector) (from to : ℕ)
    → (from == to) ≡ false
    → ((n : ℕ) → s.subs n ≡ armed s.ctrls from n)
    → Resubscribed s to (resubscribe s from to)
unfolding resubscribe
resubscribe_lem s from to apart h =
    then-Subscribed s from to _ _ apart h (subscribe_lem s from none) (subscribe_lem _ to (some to))

module _ {E : Type 0} (k : Engine E) where
  -- What a switch does: nothing where the exit is active already, is not configured, or the engine
  -- refuses; otherwise the engine took the prefixes, the exit is active, and its controller alone
  -- drives the selector.
  pub data Moved (e : E) (s : Selector) (name now : ℕ) : E × Selector × Switched → Type 0 where
    same : name ≡ s.active → Moved e s name now (e, s, done)
    missing : s.exits name ≡ none → Moved e s name now (e, s, unknown)
    refusal : (e' : E) → Moved e s name now (e', s, refused)
    moves :
        (p : ExitPeer) (e' : E) (subs : ℕ → Option ℕ)
        → s.exits name ≡ some p
        → ((split : ℕ) → contains p.splits split ≡ true → k.owner e' split ≡ p.public_key)
        → ((n : ℕ) → subs n ≡ armed s.ctrls name n)
        → Moved e s name now
            (e', record s { active = name; last_switch = some now; subs = subs }, done)

  repoint_lem :
      (e : E) (s : Selector) (name now : ℕ) (p : ExitPeer) (o : E × Bool)
      → s.exits name ≡ some p
      → (name == s.active) ≡ false
      → ((n : ℕ) → s.subs n ≡ armed s.ctrls s.active n)
      → (o.1 ≡ true
          → (split : ℕ) → contains p.splits split ≡ true
          → k.owner o.0 split ≡ p.public_key)
      → Moved e s name now (repoint k e s name now o)
  unfolding repoint
  repoint_lem e s name now p (e', false) known apart h owns = refusal e'
  repoint_lem e s name now p (e', true) known apart h owns = from_resubscribed _ (
      resubscribe_lem (record s { active = name; last_switch = some now }) s.active name
        (ground arith) h)
    where
      from_resubscribed :
          (s' : Selector)
          → Resubscribed (record s { active = name; last_switch = some now }) name s'
          → Moved e s name now (e', s', done)
      from_resubscribed _ (resubscribed subs f) = moves p e' subs known (owns refl) f

  switch_to_lem :
      (e : E) (s : Selector) (name now : ℕ) (o : Option ExitPeer)
      → s.exits name ≡ o
      → IsValid s
      → Moved e s name now (switch_to k e s name now o)
  unfolding switch_to
  switch_to_lem e s name now none known v = missing known
  switch_to_lem e s name now (some p) known v = elim (Bool-cases (name == s.active)) [
    | inl b ↦
        subst (Moved e s name now) (sym (if_true (name == s.active) _ _ b))
          (same ((==_iff name s.active).0 b))
    | inr b ↦ subst (Moved e s name now) (sym (if_false (name == s.active) _ _ b)) (
        repoint_lem e s name now p (k.ipc_set e p.public_key p.splits) known b v.subs
          (λ ok split. k.steals e p.public_key p.splits split ok))
  ]

  -- From a valid state a switch is one of the four of `Moved`: an error changes nothing of the
  -- selector.
  pub switch_lem :
      (e : E) (s : Selector) (name now : ℕ) → IsValid s → Moved e s name now (switch k e s name now)
  unfolding switch
  switch_lem e s name now v = switch_to_lem e s name now (s.exits name) refl v

  pub Moved-IsValid :
      {e : E} {s : Selector} {name now : ℕ} {o : E × Selector × Switched}
      → IsValid s
      → Moved e s name now o
      → IsValid o.1
  Moved-IsValid v (same _) = v
  Moved-IsValid v (missing _) = v
  Moved-IsValid v (refusal _) = v
  Moved-IsValid v (moves p e' subs known owns f) = record {
    active = ap is_known known;
    order = v.order;
    subs = f;
  }
