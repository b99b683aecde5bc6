-- ===== src/Reseq/Buffer/Fifo.antt =====
-- The FIFO of released items: `pending` is what `Pop` has yet to return.
use fecalia.Base.{
  ℕ, zero, suc, ◌+◌, ◌≤◌, ◌<◌, ◌≡◌, refl, sym, ap, ◌∙◌, Option, none, some, List, [], ◌∷◌, ◌++◌,
  arith, get_or, set, drop, length, length-set, dec_le, le→leb, lt→leb_false,
}
use mathlib.Core.Path.{subst}
use fecalia.Reseq.Buffer.{Item, zero_item, Buffer, pending, take_ready}
use fecalia.Reseq.Buffer.Window.{IsValid}
use fecalia.Reseq.Buffer.Step.{payloads}

drop-append :
    {A : Type 0} (n : ℕ) (xs ys : List A) → n ≤ length xs → drop n (xs ++ ys) ≡ drop n xs ++ ys
drop-append zero xs ys h = refl
drop-append (suc n) [] ys h = elim h [ ]
drop-append (suc n) (x ∷ xs) ys h = drop-append n xs ys (omega arith)

drop-all : (n : ℕ) (xs : List Item) → length xs ≤ n → drop n xs ≡ []
drop-all zero [] h = refl
drop-all zero (x ∷ xs) h = elim h [ ]
drop-all (suc n) [] h = refl
drop-all (suc n) (x ∷ xs) h = drop-all n xs (omega arith)

drop-get :
    (n : ℕ) (xs : List Item) → n < length xs → drop n xs ≡ get_or xs n zero_item ∷ drop (n + 1) xs
drop-get n [] h = elim h [ ]
drop-get zero (x ∷ xs) h = refl
drop-get (suc n) (x ∷ xs) h =
    let s : suc n + 1 ≡ suc (n + 1) = omega arith in rw s (drop-get n xs (omega arith))

drop-set : (n : ℕ) (xs : List Item) (x : Item) → drop (n + 1) (set xs n x) ≡ drop (n + 1) xs
drop-set n [] x = refl
drop-set zero (y ∷ xs) x = refl
drop-set (suc n) (y ∷ xs) x =
    let s : suc n + 1 ≡ suc (n + 1) = omega arith in rw s (drop-set n xs x)

payloads-drop : (n : ℕ) (l : List Item) → payloads (drop n l) ≡ drop n (payloads l)
payloads-drop zero l = refl
payloads-drop (suc n) [] = refl
payloads-drop (suc n) (x ∷ l) = payloads-drop n l

length-payloads : (l : List Item) → length (payloads l) ≡ length l
length-payloads [] = refl
length-payloads (x ∷ l) = ap suc (length-payloads l)

-- What is appended to `ready` is appended to what `Pop` has yet to return.
pub pending-append :
    (b b' : Buffer) (items : List (List ℕ))
    → b.ready_pos ≤ length b.ready
    → b'.ready_pos ≡ b.ready_pos
    → payloads b'.ready ≡ payloads b.ready ++ items
    → payloads (pending b') ≡ payloads (pending b) ++ items
unfolding pending
pending-append b b' items h p e =
    let inside : b.ready_pos ≤ length (payloads b.ready) = omega (arith, length-payloads b.ready) in
    payloads-drop b'.ready_pos b'.ready
    ∙ ap (λ n. drop n (payloads b'.ready)) p
    ∙ ap (drop b.ready_pos) e
    ∙ drop-append b.ready_pos (payloads b.ready) items inside
    ∙ ap (λ l. l ++ items) (sym (payloads-drop b.ready_pos b.ready))

-- The returned item, put back before the rest.
-- What is taken off the front of a FIFO: its first item, and nothing only off an empty one.
abbrev pub Front : Option Item → List Item → List Item → Type 0
Front none before after = (before ≡ []) × (after ≡ [])
Front (some x) before after = before ≡ x ∷ after

abbrev pub put_back : Option Item → List Item → List Item
put_back none l = l
put_back (some x) l = x ∷ l

-- `Pop` takes the front of the FIFO: what it returns and what it leaves are what was pending, and it
-- returns nothing only where nothing was pending.
pub take_ready_lem :
    (b : Buffer)
    → (pending b ≡ put_back (take_ready b).1 (pending (take_ready b).0))
      × ((take_ready b).1 ≡ none → pending b ≡ [])
unfolding take_ready pending
take_ready_lem b = elim (dec_le (length b.ready) b.ready_pos) [
  | yes p ↦ rw (le→leb _ _ p) (refl, λ _. drop-all b.ready_pos b.ready p)
  | no p ↦
      let some_left : b.ready_pos < length b.ready = omega arith in
      let front = drop-get b.ready_pos b.ready some_left in
      rw (lt→leb_false (length b.ready) b.ready_pos some_left) (
        elim (dec_le (length b.ready) (b.ready_pos + 1)) [
          | yes q ↦ rw (le→leb _ _ q) (
              front
              ∙ ap (λ l. get_or b.ready b.ready_pos zero_item ∷ l)
                  (drop-all (b.ready_pos + 1) b.ready q))
          | no q ↦ rw (lt→leb_false (length b.ready) (b.ready_pos + 1) (omega arith)) (
              front
              ∙ ap (λ l. get_or b.ready b.ready_pos zero_item ∷ l)
                  (sym (drop-set b.ready_pos b.ready zero_item)))
        ],
        λ e. cc e,
      )
]

-- `Pop` writes only the FIFO.
pub take_ready-frame :
    (b : Buffer)
    → let b' = (take_ready b).0 in record b { ready = b'.ready; ready_pos = b'.ready_pos } ≡ b'
unfolding take_ready
take_ready-frame b = ground arith

pub take_ready-fifo :
    (b : Buffer)
    → b.ready_pos ≤ length b.ready
    → (take_ready b).0.ready_pos ≤ length (take_ready b).0.ready
unfolding take_ready
take_ready-fifo b h = ground (arith, length-set b.ready b.ready_pos zero_item)

-- `Pop` keeps the window invariant.
pub take_ready-IsValid : {b : Buffer} → IsValid b → IsValid (take_ready b).0
take_ready-IsValid {b} v = subst IsValid (take_ready-frame b) (record {
  pos = v.pos;
  sized = v.sized;
  counted = v.counted;
  headroom = v.headroom;
  fifo = take_ready-fifo b v.fifo;
  fits = v.fits;
})

pub put_back-Front :
    (o : Option Item) (before after : List Item)
    → before ≡ put_back o after
    → (o ≡ none → before ≡ [])
    → Front o before after
put_back-Front none before after f n = (n refl, sym f ∙ n refl)
put_back-Front (some x) before after f n = f

pub Front-put_back :
    (o : Option Item) (before after : List Item) → Front o before after → before ≡ put_back o after
Front-put_back none before after (e, f) = e ∙ sym f
Front-put_back (some x) before after e = e
