-- ===== src/Device/Exit/Start.antt =====
-- The selector as it is built, and as auto-promotion is switched on.
use fecalia.Base.{
  ℕ, ◌≡◌, ◌<◌, refl, ap, ◌∙◌, Bool, true, false, ◌&&◌, Option, none, some, List, [], ◌∷◌, map,
  length, ◌==◌, ==_iff, if◌then◌else◌, if_true, arith,
}
use fecalia.Device.Exit.{
  ExitPeer, Selector, find_exit, new_exit_selector, controlled, enable_auto_promotion,
}
use fecalia.Device.Exit.Invariant.{
  is_known, AllKnown, armed, IsValid, Subscribed, subscribed, subscribe_lem, at_test, same_some,
}

abbrev names : List (ℕ × ExitPeer) → List ℕ
names = map (λ (x : ℕ × ExitPeer). x.0)

AllKnown-cons :
    (n : ℕ) (p : ExitPeer) (l : List (ℕ × ExitPeer)) (ns : List ℕ)
    → AllKnown (find_exit l) ns
    → AllKnown (find_exit ((n, p) ∷ l)) ns
AllKnown-cons n p l [] h = tt
AllKnown-cons n p l (m ∷ ns) (h, hs) = (known (m == n), AllKnown-cons n p l ns hs)
  where
    known : (b : Bool) → is_known (if b then some p else find_exit l m) ≡ true
    known true = refl
    known false = h

first_known :
    (n : ℕ) (p : ExitPeer) (l : List (ℕ × ExitPeer)) → is_known (find_exit ((n, p) ∷ l) n) ≡ true
first_known n p l = ap is_known (if_true (n == n) _ _ ((==_iff n n).1 refl))

find_exit-AllKnown : (l : List (ℕ × ExitPeer)) → AllKnown (find_exit l) (names l)
find_exit-AllKnown [] = tt
find_exit-AllKnown ((n, p) ∷ l) =
    (first_known n p l, AllKnown-cons n p l (names l) (find_exit-AllKnown l))

-- A selector is built for two exit-capable peers at least, and then it is valid.
abbrev pub Built : List (ℕ × ExitPeer) → Option Selector → Type 0
Built l none = length l < 2
Built l (some s) = IsValid s

-- From any exit-capable peers, either they are fewer than two or the selector that is built is valid.
pub new_exit_selector-Built : (l : List (ℕ × ExitPeer)) → Built l (new_exit_selector l)
unfolding new_exit_selector
new_exit_selector-Built [] = omega arith
new_exit_selector-Built (x ∷ []) = omega arith
new_exit_selector-Built ((n, p) ∷ (m, q) ∷ l) = record {
  active = first_known n p ((m, q) ∷ l);
  order = find_exit-AllKnown ((n, p) ∷ (m, q) ∷ l);
  subs = λ j. refl;
}

set_up :
    (at c_at c_n : Bool) (x y : Option ℕ)
    → (if at then c_n else false) ≡ (if at then c_at else false)
    → (if at then x else y) ≡ y
    → (if c_at && at then x else none) ≡ (if c_n && at then y else none)
set_up at c_at c_n x y p q = ground arith

-- Switching auto-promotion on arms the active exit's controller, if it has one, and no other.
pub enable_auto_promotion-IsValid :
    (s : Selector) (ctrls : Option (ℕ → Bool)) (health : Bool)
    → IsValid s
    → s.ctrls ≡ none
    → IsValid (enable_auto_promotion s ctrls health)
unfolding enable_auto_promotion
enable_auto_promotion-IsValid s ctrls health v off =
    from_subscribed _
      (subscribe_lem (record s { ctrls = ctrls; has_health = health }) s.active (some s.active))
  where
    point :
        (n : ℕ)
        → (if controlled ctrls s.active && n == s.active then some s.active else s.subs n)
          ≡ armed ctrls s.active n
    point n =
        ap (λ x. if controlled ctrls s.active && n == s.active then some s.active else x)
          (v.subs n ∙ ap (λ c. armed c s.active n) off)
        ∙ set_up (n == s.active) (controlled ctrls s.active) (controlled ctrls n) (some s.active)
            (some n) (at_test n s.active (controlled ctrls) false) (same_some n s.active)

    from_subscribed :
        (s' : Selector)
        → Subscribed (record s { ctrls = ctrls; has_health = health }) s.active (some s.active) s'
        → IsValid s'
    from_subscribed _ (subscribed subs f) = record {
      active = v.active;
      order = v.order;
      subs = λ n. f n ∙ point n;
    }
