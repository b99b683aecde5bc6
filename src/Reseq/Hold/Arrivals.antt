-- ===== src/Reseq/Hold/Arrivals.antt =====
-- The list of arrivals covers the buffered frames, so that a hold always finds what to run from.
use fecalia.Base.{
  ℕ, zero, suc, ◌+◌, ◌≤◌, ◌<◌, ◌≡◌, inl, inr, refl, sym, ap, ◌∙◌, true, false, ◌&&◌, some, List, [],
  ◌∷◌, ◌++◌, arith, Bool-cases, leb, add64, u64_mod, le→leb, get_or, drop, length,
}
use mathlib.Core.List.{Memᴰ}
use mathlib.Core.List.Memᴰ
use fecalia.Reseq.Buffer.{Slot, zero_slot, Buffer, cell, present, place}
use fecalia.Reseq.Buffer.Place.{place-cases}
use fecalia.Reseq.Buffer.Window.{
  occupied_at, IsValid, present_at, absent-later, occupied_count-find,
}
use fecalia.Reseq.Buffer.Step.{Ascending-le, Released}
use fecalia.Reseq.Hold.{Held, compact, oldest_from, oldest_buffered_observation}

-- The arrivals from the cursor on.
abbrev pub arrivals : Held → List ℕ
arrivals h = drop h.held_pos h.held

-- Every frame that is buffered behind the release point is among the arrivals.
abbrev pub Covers : Buffer → List ℕ → Type 0
Covers b l =
    (i : ℕ)
    → occupied_at b.ring i ≡ true
    → b.next < (get_or b.ring i zero_slot).seq
    → Memᴰ (get_or b.ring i zero_slot).seq l

drop-suc :
    {A : Type 0} (n : ℕ) (xs : List A) {x : A} {l : List A}
    → drop n xs ≡ x ∷ l
    → drop (n + 1) xs ≡ l
drop-suc zero [] e = cc e
drop-suc (suc n) [] e = cc e
drop-suc zero (y ∷ xs) e = cc e
drop-suc (suc n) (y ∷ xs) e =
    let s : suc n + 1 ≡ suc (n + 1) = omega arith in rw s (drop-suc n xs e)

arrivals-compact : (h : Held) → arrivals (compact h) ≡ arrivals h
unfolding compact
arrivals-compact h = ground arith

-- An arrival that is not buffered any more covers nothing.
Covers-tail :
    {b : Buffer} {seq : ℕ} {l : List ℕ}
    → IsValid b
    → (present b seq && leb b.next seq) ≡ false
    → Covers b (seq ∷ l)
    → Covers b l
Covers-tail {b} {seq} {l} v gone c i o lt = elim (Memᴰ.cases_cons (c i o lt)) [
  | inl e ↦
      let here = present_at v i o in
      let s = (get_or b.ring i zero_slot).seq in
      let up : leb b.next s ≡ true = le→leb b.next s (omega arith) in cc (here, up, e, gone)
  | inr m ↦ m
]

-- The turn of the scan that passes an arrival over.
abbrev pass_over : Held → Held
pass_over h = record h { hold_slot_visits = add64 h.hold_slot_visits 1; held_pos = h.held_pos + 1 }

oldest_from-Covers :
    {b : Buffer} (h : Held) (l : List ℕ)
    → IsValid b
    → arrivals h ≡ l
    → Covers b l
    → Covers b (arrivals (oldest_from b h l).0)
unfolding oldest_from
oldest_from-Covers {b} h [] v e c = c
oldest_from-Covers {b} h (seq ∷ l) v e c = elim (Bool-cases (present b seq && leb b.next seq)) [
  | inl y ↦ rw (y, arrivals-compact _, e) c
  | inr n ↦
      rw n (oldest_from-Covers (pass_over h) l v (drop-suc h.held_pos h.held e) (Covers-tail v n c))
]

-- The scan finds a buffered arrival.
oldest_from-some :
    (b : Buffer) (h : Held) (l : List ℕ) (s : ℕ)
    → Memᴰ s l
    → present b s ≡ true
    → b.next ≤ s
    → (t : ℕ) × ((oldest_from b h l).1 ≡ some t)
unfolding oldest_from
oldest_from-some b h [] s m p le = absurd (Memᴰ.not-nil m)
oldest_from-some b h (seq ∷ l) s m p le = elim (Bool-cases (present b seq && leb b.next seq)) [
  | inl y ↦ ((cell b seq).observed_at, rw y)
  | inr n ↦ elim (Memᴰ.cases_cons m) [
    | inl e ↦ cc (p, le→leb b.next s le, e, n)
    | inr m' ↦ rw n (oldest_from-some b (pass_over h) l s m' p le)
  ]
]

drop-cons-lt :
    {A : Type 0} (n : ℕ) (xs : List A) {x : A} {l : List A} → drop n xs ≡ x ∷ l → n < length xs
drop-cons-lt zero [] e = cc e
drop-cons-lt zero (y ∷ xs) e = omega arith
drop-cons-lt (suc n) [] e = cc e
drop-cons-lt (suc n) (y ∷ xs) e = omega (arith, drop-cons-lt n xs e)

compact-cursor :
    (h : Held) → h.held_pos ≤ length h.held → (compact h).held_pos ≤ length (compact h).held
unfolding compact
compact-cursor h p = ground arith

-- The scan leaves its cursor in the list.
oldest_from-cursor :
    (b : Buffer) (h : Held) (l : List ℕ)
    → arrivals h ≡ l
    → (oldest_from b h l).0.held_pos ≤ length (oldest_from b h l).0.held
unfolding oldest_from
oldest_from-cursor b h [] e = omega arith
oldest_from-cursor b h (seq ∷ l) e = elim (Bool-cases (present b seq && leb b.next seq)) [
  | inl y ↦
      let seen = record h { hold_slot_visits = add64 h.hold_slot_visits 1 } in
      let inside = drop-cons-lt h.held_pos h.held e in rw y (compact-cursor seen (omega arith))
  | inr n ↦ rw n (oldest_from-cursor b (pass_over h) l (drop-suc h.held_pos h.held e))
]

pub drop-snoc :
    (n : ℕ) (xs : List ℕ) (x : ℕ) → n ≤ length xs → drop n (xs ++ (x ∷ [])) ≡ drop n xs ++ (x ∷ [])
drop-snoc zero xs x h = refl
drop-snoc (suc n) [] x h = elim h [ ]
drop-snoc (suc n) (y ∷ xs) x h = drop-snoc n xs x (omega arith)

-- Behind a gap, where frames are buffered, there is an oldest observation.
pub oldest_buffered_observation_lem :
    {b : Buffer} (h : Held)
    → IsValid b
    → Covers b (arrivals h)
    → present b b.next ≡ false
    → 0 < b.buf
    → ((t : ℕ) × ((oldest_buffered_observation b h).1 ≡ some t))
      × Covers b (arrivals (oldest_buffered_observation b h).0)
      × ((oldest_buffered_observation b h).0.held_pos
          ≤ length (oldest_buffered_observation b h).0.held)
unfolding oldest_buffered_observation
oldest_buffered_observation_lem {b} h v c gap some_held =
    let (i, o) = occupied_count-find b.ring (omega (arith, v.counted)) in
    let late = absent-later v gap i o in
    (
      oldest_from-some b h (arrivals h) (get_or b.ring i zero_slot).seq (c i o late)
          (present_at v i o) (omega arith),
      oldest_from-Covers h (arrivals h) v refl c,
      oldest_from-cursor b h (arrivals h) refl,
    )

-- Release and skipping keep the arrivals complete.
pub Released-Covers :
    {sent : ℕ → List ℕ → Type 0} {b b' : Buffer} {l : List ℕ}
    → Released sent b b'
    → Covers b l
    → Covers b' l
Released-Covers {sent} {b} {b'} {l} r c i o lt =
    let same = r.kept i o in
    let old = ap (λ (s : Slot). s.occupied) (sym same) ∙ o in
    let s = ap (λ (s : Slot). s.seq) same in
    Memᴰ.cast s (c i old (omega (arith, s, Ascending-le b.next r.seqs b'.next r.ascending)))

module _ {b : Buffer} (v : IsValid b) (c : Slot) (live : c.occupied ≡ true) (low : b.next ≤ c.seq)
    (high : c.seq < b.next + b.window) (room : c.seq + b.window < u64_mod)
    (fresh : present b c.seq ≡ false) where
  -- The write of a frame behind the release point is noted.
  pub place-Covers_behind : {l : List ℕ} → Covers b l → Covers (place b c) (l ++ (c.seq ∷ []))
  unfolding place
  place-Covers_behind {l} h i o lt = elim (place-cases v c live low high room fresh i o) [
    | inl (_, same) ↦ Memᴰ.append_right l (Memᴰ.head (ap (λ (s : Slot). s.seq) same))
    | inr (old, same) ↦
        rw same
          (Memᴰ.append_left (c.seq ∷ []) (h i old (omega (arith, ap (λ (s : Slot). s.seq) same))))
  ]

  -- The write of the frame at the release point need not be.
  pub place-Covers_head : {l : List ℕ} → c.seq ≡ b.next → Covers b l → Covers (place b c) l
  unfolding place
  place-Covers_head {l} e h i o lt = elim (place-cases v c live low high room fresh i o) [
    | inl (_, same) ↦ absurd (omega (arith, ap (λ (s : Slot). s.seq) same))
    | inr (old, same) ↦ rw same (h i old (omega (arith, ap (λ (s : Slot). s.seq) same)))
  ]
