-- ===== src/Bond/Codel/Standing.antt =====
-- A packet is dropped only from a standing queue.
use fecalia.Base.{
  ℕ, ◌+◌, ◌≤◌, ◌<◌, ◌≡◌, inl, inr, refl, sym, ap, Bool, true, false, not, ◌||◌, Option, none, some,
  List, [], ◌∷◌, ltb, ◌==◌, if_true, if_false, Bool-cases, arith,
}
use mathlib.Core.Path.{subst}
use fecalia.Bond.Codel.{
  Codel, new_codel, codel_target, codel_interval, ok_since, ok_to_drop, keep_dropping,
  start_dropping, drop,
}

-- One call of `drop`.
pub record Dequeue : Type 0 where
  pub at : ℕ
  pub sojourn : ℕ
  pub remaining : ℕ
  pub round_trip : ℕ

-- The state after a history of calls, the latest one first.
unfoldable pub after : (ℕ → ℕ → ℕ) → List Dequeue → Codel
unfolding drop
after spacing [] = new_codel
after spacing (o ∷ l) = (drop spacing (after spacing l) o.at o.sojourn o.remaining o.round_trip).0

-- The packet waited at least the target, and is not the last one of the queue.
abbrev pub Waited : Dequeue → Type 0
Waited o = (codel_target o.round_trip ≤ o.sojourn) × (0 < o.remaining)

-- Every packet waited, since one at an interval before `ripe`.
pub data Standing (ripe : ℕ) : List Dequeue → Type 0 where
  starts :
      (o : Dequeue) (l : List Dequeue)
      → Waited o
      → o.at + codel_interval o.round_trip ≡ ripe
      → Standing ripe (o ∷ l)
  stays : (o : Dequeue) (l : List Dequeue) → Waited o → Standing ripe l → Standing ripe (o ∷ l)

abbrev Backs : List Dequeue → Option ℕ → Type 0
Backs l none = Unit
Backs l (some ripe) = Standing ripe l

-- What `ok_to_drop` answers: the mark it leaves is backed, and it agrees only behind the mark.
abbrev Judged : Dequeue → List Dequeue → Codel × Bool → Type 0
Judged o l r =
    Backs (o ∷ l) r.0.first_above
    × (r.1 ≡ true → (ripe : ℕ) × (Standing ripe (o ∷ l) × (ripe ≤ o.at)))

ok_since-Judged :
    (c : Codel) (o : Dequeue) (l : List Dequeue) (above : Option ℕ)
    → c.first_above ≡ above
    → c.interval ≡ codel_interval o.round_trip
    → Waited o
    → Backs l above
    → Judged o l (ok_since c o.at above)
unfolding ok_since
ok_since-Judged c o l none e i w h = (starts o l w (ap (λ n. o.at + n) (sym i)), λ no. cc no)
ok_since-Judged c o l (some ripe) e i w h = (
  subst (Backs (o ∷ l)) (sym e) (stays o l w h),
  λ late. (ripe, (stays o l w h, reached o.at ripe late)),
)
  where
    reached : (now ripe : ℕ) → not (ltb now ripe) ≡ true → ripe ≤ now
    reached now ripe late = ground arith

ok_to_drop-Judged :
    (c : Codel) (o : Dequeue) (l : List Dequeue)
    → c.target ≡ codel_target o.round_trip
    → c.interval ≡ codel_interval o.round_trip
    → Backs l c.first_above
    → Judged o l (ok_to_drop c o.at o.sojourn o.remaining)
unfolding ok_to_drop
ok_to_drop-Judged c o l t i h = elim (Bool-cases (ltb o.sojourn c.target || o.remaining == 0)) [
  | inl y ↦
      subst (Judged o l) (sym (if_true (ltb o.sojourn c.target || o.remaining == 0) _ _ y))
        (tt, λ no. cc no)
  | inr n ↦ subst (Judged o l) (sym (if_false (ltb o.sojourn c.target || o.remaining == 0) _ _ n)) (
      ok_since-Judged c o l c.first_above refl i
        (waited c.target (codel_target o.round_trip) o.sojourn o.remaining t n) h)
]
  where
    waited : (a t s r : ℕ) → a ≡ t → (ltb s a || r == 0) ≡ false → (t ≤ s) × (0 < r)
    waited a t s r e n = ground arith

-- The rest of `drop` keeps the mark, and drops only where `ok` agrees.
abbrev Obeys : Codel → Bool → Codel × Bool → Type 0
Obeys c ok r = (r.0.first_above ≡ c.first_above) × (r.1 ≡ true → ok ≡ true)

keep_dropping-Obeys :
    (spacing : ℕ → ℕ → ℕ) (c : Codel) (now : ℕ) (ok : Bool)
    → Obeys c ok (keep_dropping spacing c now ok)
unfolding keep_dropping
keep_dropping-Obeys spacing c now false = (refl, λ no. cc no)
keep_dropping-Obeys spacing c now true = elim (Bool-cases (ltb now c.drop_next)) [
  | inl y ↦ subst (Obeys c true) (sym (if_true (ltb now c.drop_next) _ _ y)) (refl, λ _. refl)
  | inr n ↦ subst (Obeys c true) (sym (if_false (ltb now c.drop_next) _ _ n)) (refl, λ _. refl)
]

start_dropping-Obeys :
    (spacing : ℕ → ℕ → ℕ) (c : Codel) (now : ℕ) (ok : Bool)
    → Obeys c ok (start_dropping spacing c now ok)
unfolding start_dropping
start_dropping-Obeys spacing c now false = (refl, λ no. cc no)
start_dropping-Obeys spacing c now true = (refl, λ _. refl)

module _ (spacing : ℕ → ℕ → ℕ) where
  judged :
      (c : Codel) (o : Dequeue) (l : List Dequeue)
      → Backs l c.first_above
      → Judged o l (drop spacing c o.at o.sojourn o.remaining o.round_trip)
  unfolding drop
  judged c o l h =
      let tuned : Codel = record c {
        target = codel_target o.round_trip;
        interval = codel_interval o.round_trip;
      } in
      let v : Codel × Bool = ok_to_drop tuned o.at o.sojourn o.remaining in
      passed v (drop spacing c o.at o.sojourn o.remaining o.round_trip)
        (elim (Bool-cases v.0.dropping) [
          | inl y ↦
              subst (Obeys v.0 v.1) (sym (if_true v.0.dropping _ _ y))
                (keep_dropping-Obeys spacing v.0 o.at v.1)
          | inr n ↦
              subst (Obeys v.0 v.1) (sym (if_false v.0.dropping _ _ n))
                (start_dropping-Obeys spacing v.0 o.at v.1)
        ])
        (ok_to_drop-Judged tuned o l refl refl h)
    where
      passed : (v r : Codel × Bool) → Obeys v.0 v.1 r → Judged o l v → Judged o l r
      passed v r (e, f) (b, g) = (subst (Backs (o ∷ l)) (sym e) b, λ y. g (f y))

  after-Backs : (l : List Dequeue) → Backs l (after spacing l).first_above
  unfolding after
  after-Backs [] = tt
  after-Backs (o ∷ l) = (judged (after spacing l) o l (after-Backs l)).0

  -- A packet is dropped only if it waited at least its target with packets left behind it, and so did
  -- every packet since one whose time plus its interval is not after the time of the drop.
  pub drop-Standing :
      (o : Dequeue) (l : List Dequeue)
      → (drop spacing (after spacing l) o.at o.sojourn o.remaining o.round_trip).1 ≡ true
      → (ripe : ℕ) × (Standing ripe (o ∷ l) × (ripe ≤ o.at))
  drop-Standing o l dropped = (judged (after spacing l) o l (after-Backs l)).1 dropped
