-- ===== src/Telemetry/Pmtu/Search.antt =====
-- The binary search: its range, what its result rests on, and its result on a reliable path.
use fecalia.Base.{
  ltb_false→le, ℕ, zero, suc, ◌+◌, ◌-◌, ◌/◌, ◌≤◌, ◌<◌, ◌≡◌, ◌⊎◌, inl, inr, refl, sym, ap, ◌∙◌, Bool,
  true, false, Option, none, some, min, ltb, ltb→lt, leb, dec_le, if◌then◌else◌, arith, Bool-cases,
}
use mathlib.Core.Path.{subst}
use fecalia.Telemetry.Pmtu.{
  Answer, echoed, silent, pmtu_floor, confirm_candidate, search_loop, search,
}
use fecalia.Telemetry.Pmtu.Confirm.{
  Streak, Backed, confirm_candidate-Backed, confirm_candidate_fits, confirm_candidate_too_large,
}

verdict_cases : (o : Option Bool) → (o ≡ none) ⊎ ((o ≡ some true) ⊎ (o ≡ some false))
verdict_cases none = inl refl
verdict_cases (some true) = inr (inl refl)
verdict_cases (some false) = inr (inr refl)

module _ {W : Type 0} (probe_pmtu : W → ℕ → W × Answer) where
  -- At some time the size was answered `need` times in a row at least.
  abbrev pub Proven : ℕ → ℕ → Type 0
  Proven need mid =
      (start : W) × (end : W) × (k : ℕ) × (need ≤ k) × Streak probe_pmtu mid k start end

  Backed-Proven :
      (need mid : ℕ) (w : W) (v : Option Bool)
      → Backed probe_pmtu need mid (w, v)
      → v ≡ some true
      → Proven need mid
  Backed-Proven need mid w none b e = cc e
  Backed-Proven need mid w (some false) b e = cc e
  Backed-Proven need mid w (some true) (start, k, le, s) e = (start, w, k, le, s)

  -- A search without an error ends in its range, at its known-good end or at a proven size.
  abbrev pub Found : ℕ → ℕ → ℕ → Option ℕ → Type 0
  Found need lo hi none = Unit
  Found need lo hi (some r) = (lo ≤ r) × (r ≤ hi) × ((r ≡ lo) ⊎ Proven need r)

  Found-above :
      (need lo mid hi : ℕ) (o : Option ℕ)
      → lo ≤ mid
      → Proven need mid
      → Found need mid hi o
      → Found need lo hi o
  Found-above need lo mid hi none le p f = tt
  Found-above need lo mid hi (some r) le p (a, b, inl e) =
      (omega arith, b, inr (subst (Proven need) (sym e) p))
  Found-above need lo mid hi (some r) le p (a, b, inr q) = (omega arith, b, inr q)

  Found-below :
      (need lo mid hi : ℕ) (o : Option ℕ) → mid ≤ hi → Found need lo mid o → Found need lo hi o
  Found-below need lo mid hi none le f = tt
  Found-below need lo mid hi (some r) le (a, b, c) = (a, omega arith, c)

  search_loop-Found :
      (n need lo hi : ℕ) (w : W)
      → lo ≤ hi
      → Found need lo hi (search_loop probe_pmtu n need lo hi w).1
  unfolding search_loop
  search_loop-Found zero need lo hi w le = (omega arith, le, inl refl)
  search_loop-Found (suc n) need lo hi w le = elim (Bool-cases (ltb lo hi)) [
    | inr e ↦ rw (search_loop, e) (omega arith, le, inl refl)
    | inl e ↦
        let mid = (lo + hi + 1) / 2 in
        let lt = ltb→lt lo hi e in
        let o = confirm_candidate probe_pmtu need mid lo w in
        elim (verdict_cases o.1) [
          | inl v ↦ rw (search_loop, e, v) tt
          | inr (inl v) ↦
              rw (search_loop, e, v)
                (Found-above need lo mid hi _ (omega arith)
                  (Backed-Proven need mid o.0 o.1
                    (confirm_candidate-Backed probe_pmtu need mid lo w) v)
                  (search_loop-Found n need mid hi o.0 (omega arith)))
          | inr (inr v) ↦
              rw (search_loop, e, v)
                (Found-below need lo (mid - 1) hi _ (omega arith)
                  (search_loop-Found n need lo (mid - 1) o.0 (omega arith)))
        ]
  ]

  -- Whatever the path answers, a search that meets no error ends between the floor and the ceiling,
  -- at the floor or at a size that was answered `need` times in a row.
  pub search-Found :
      (need ceiling : ℕ) (w : W)
      → pmtu_floor ≤ ceiling
      → Found need pmtu_floor ceiling (search probe_pmtu need ceiling w).1
  unfolding search
  search-Found need ceiling w le =
      search_loop-Found (ceiling - pmtu_floor) need pmtu_floor ceiling w le

  module _ (mtu : ℕ)
      (reliable : (w : W) (n : ℕ)
        → (probe_pmtu w n).1 ≡ (if leb n mtu then echoed else silent)) where
    search_loop-reliable :
        (n need lo hi : ℕ) (w : W)
        → 0 < need
        → lo ≤ mtu
        → lo ≤ hi
        → hi - lo ≤ n
        → (search_loop probe_pmtu n need lo hi w).1 ≡ some (min mtu hi)
    unfolding search_loop
    search_loop-reliable zero need lo hi w pos le ord fuel = ap some (omega arith)
    search_loop-reliable (suc n) need lo hi w pos le ord fuel = elim (Bool-cases (ltb lo hi)) [
      | inr e ↦ rw (search_loop, e) (ap some (omega (arith, ltb_false→le lo hi e)))
      | inl e ↦
          let mid = (lo + hi + 1) / 2 in
          let lt = ltb→lt lo hi e in
          let w₁ = (confirm_candidate probe_pmtu need mid lo w).0 in
          elim (dec_le mid mtu) [
            | yes y ↦
                rw
                  (
                    search_loop,
                    e,
                    confirm_candidate_fits probe_pmtu mtu reliable need mid lo w pos y,
                  )
                  (search_loop-reliable n need mid hi w₁ pos y (omega arith) (omega arith))
            | no y ↦
                rw
                  (
                    search_loop,
                    e,
                    confirm_candidate_too_large probe_pmtu mtu reliable need mid lo w (omega arith)
                        le,
                  )
                  (search_loop-reliable n need lo (mid - 1) w₁ pos le (omega arith) (omega arith)
                    ∙ ap some (omega arith))
          ]
    ]

    -- On a path that answers exactly the datagrams up to its MTU, which is the floor at least, the
    -- search gives that MTU, or the ceiling if it is smaller: each turn of its fuel is enough.
    pub search-reliable :
        (need ceiling : ℕ) (w : W)
        → 0 < need
        → pmtu_floor ≤ mtu
        → pmtu_floor ≤ ceiling
        → (search probe_pmtu need ceiling w).1 ≡ some (min mtu ceiling)
    unfolding search
    search-reliable need ceiling w pos le ord =
        search_loop-reliable (ceiling - pmtu_floor) need pmtu_floor ceiling w pos le ord
          (omega arith)
