-- ===== src/Bond/Transport/Once.antt =====
-- The delivery sequences that a transport hands over between two changes of the remote epoch.
use fecalia.Base.{
  ℕ, ◌≤◌, ap, ◌≡◌, inl, inr, refl, sym, ◌∙◌, max, Bool, true, false, ◌||◌, Option, none, some, List,
  [], ◌∷◌, ltb, ◌==◌, if◌then◌else◌, if_true, if_false, if_both, Bool-cases, arith,
}
use mathlib.Core.Path.{subst}
use mathlib.Core.Option.{some-injective}
use fecalia.Frame.{Control}
use fecalia.Bond.{Epoch}
use fecalia.Bond.Receipts.{ReceiptWindow, new_receipts, move_up, mark}
use fecalia.Bond.Receipts.Stale.{forget_through-high}
use fecalia.Bond.Receipts.Observed.{
  marked, highest, Tracks, marked_above, move_up-Tracks, mark_at-Marks,
}
use fecalia.Bond.Transport.{
  Class, realtime, small, bulk, Datagram, Lane, Transport, Receiver, find_lane, check_time, path,
  disable, takes_epoch, set_remote, lease_lane, new,
}
use fecalia.Bond.Transport.Flight.{keep_alive}
use fecalia.Bond.Transport.Receive.{find_receiver, Reply, rejected, delivered, seq_of, receive}
use fecalia.Bond.Transport.Send.{
  number, count_original, send_datagram, transmit, expire_pending, acknowledged, acknowledge,
}
use fecalia.Bond.Transport.Acknowledged.{acknowledge_cases}
use fecalia.Bond.Transport.Reception.{
  Genuine, HandsNothing, Reception, quiet, handed, numbers, numbered,
}
use fecalia.Bond.Transport.Delivered.{receive-Reception}
use fecalia.Bond.Transport.Run.{
  Call, receives, sets_remote, leases, disables, keeps_alive, times_out, expires, sends, repairs,
  acknowledges, find_waiting, on_lane, call, call_all,
}

-- The delivery sequences that were handed over since the remote epoch changed, the latest first.
abbrev pub logged : Reply → ℕ → List ℕ → List ℕ
logged (delivered (_ ∷ _)) seq l = seq ∷ l
logged _ seq l = l

abbrev pub log_call : Transport → Call → List ℕ → List ℕ
log_call t (receives id f now) l = logged (receive t id f now).1 (seq_of f.payload) l
log_call t (sets_remote e adopted) l = if takes_epoch t.remote e adopted then [] else l
log_call t _ l = l

abbrev pub log_all : Transport → List Call → List ℕ → List ℕ
log_all t [] l = l
log_all t (c ∷ cs) l = log_all (call t c) cs (log_call t c l)

abbrev pub Distinct : List ℕ → Type 0
Distinct [] = Unit
Distinct (x ∷ l) = (marked x l ≡ false) × Distinct l

-- The log is what the window has seen.
abbrev pub Logs : ReceiptWindow × ℕ → List ℕ → Type 0
Logs n l = Tracks n.0 (highest l) l × (Distinct l × (n.1 ≤ highest l))

new_receipts-Logs : Logs (new_receipts, 0) []
new_receipts-Logs = (record { ends = refl; bits = λ d lt h. refl }, (tt, omega arith))

mark-Logs :
    (n : ReceiptWindow × ℕ) (seq : ℕ) (l : List ℕ)
    → Logs n l
    → (mark n.0 seq).1 ≡ true
    → Logs (numbered n seq) (seq ∷ l)
unfolding mark
mark-Logs (w, last) seq l (t, (ds, le)) fresh =
    let (tracked, known) =
      mark_at-Marks (move_up w seq) (max seq (highest l)) seq l
        (move_up-Tracks w (highest l) seq l t (marked_above l)) (omega arith) in
    (tracked, (((known.0 fresh).0, ds), omega arith))

receive-Logs :
    (t : Transport) (id : ℕ) (f : Control) (now : ℕ) (l : List ℕ)
    → Logs (numbers t) l
    → Logs (numbers (receive t id f now).0) (log_call t (receives id f now) l)
receive-Logs t id f now l v = go (receive t id f now) (receive-Reception t id f now)
  where
    nothing : (y : Reply) → HandsNothing y → logged y (seq_of f.payload) l ≡ l
    nothing (rejected c) n = refl
    nothing (delivered []) n = refl
    nothing (delivered (_ ∷ _)) n = absurd n

    go :
        (o : Transport × Reply)
        → Reception (Genuine t id f now) t f.payload o
        → Logs (numbers o.0) (logged o.1 (seq_of f.payload) l)
    go _ (quiet u y e n) =
        subst (Logs (numbers u)) (sym (nothing y n)) (subst (λ w. Logs w l) (sym e) v)
    go _ (handed u g _ e fresh) =
        subst (λ n. Logs n (seq_of f.payload ∷ l)) (sym e)
          (mark-Logs (numbers t) (seq_of f.payload) l v fresh)

-- The other calls leave the numbers alone.
abbrev Same : Transport → Transport → Type 0
Same t u = numbers u ≡ numbers t

on_lane-Same :
    (t : Transport) (id : ℕ) (f : Lane → Transport)
    → ((p : Lane) → Same t (f p))
    → Same t (on_lane t id f)
on_lane-Same t id f h = go (find_lane t.paths id)
  where
    go : (o : Option Lane) → Same t (elim o as (λ _. Transport) [ none ↦ t | some p ↦ f p ])
    go none = refl
    go (some p) = h p

count_original-Same : (t : Transport) (p : Lane) (c : Class) → Same t (count_original t p c).0
unfolding count_original
count_original-Same t p realtime = refl
count_original-Same t p small = refl
count_original-Same t p bulk = refl

transmit-Same : (t : Transport) (d : Datagram) (p : Lane) (now : ℕ) → Same t (transmit t d p now).0
unfolding transmit number send_datagram
transmit-Same t d p now =
    if_both (λ (r : Transport × Control). Same t r.0) (d.seq == 0) (count_original-Same t p d.class)
      refl

repairs-Same :
    (t : Transport) (l : List Datagram) (seq id now : ℕ)
    → Same t (elim (find_waiting t l seq) as (λ _. Transport) [
      | none ↦ t
      | some d ↦ on_lane t id (λ p. (transmit t d p now).0)
    ])
repairs-Same t l seq id now = go (find_waiting t l seq)
  where
    go :
        (o : Option Datagram)
        → Same t (elim o as (λ _. Transport) [
          | none ↦ t
          | some d ↦ on_lane t id (λ p. (transmit t d p now).0)
        ])
    go none = refl
    go (some d) = on_lane-Same t id (λ p. (transmit t d p now).0) (λ p. transmit-Same t d p now)

path-Same :
    (t : Transport) (id remote_id now : ℕ)
    → Same t (elim (path t id remote_id now) as (λ _. Transport) [ none ↦ t | some u ↦ u ])
unfolding path check_time
path-Same t id remote_id now =
    if_both
      (λ (o : Option Transport).
        Same t
          (elim (elim o as (λ _. Option Transport) [
            | none ↦ none
            | some t ↦ some (record t { paths = lease_lane t.paths id remote_id now })
          ])
            as (λ _. Transport) [ none ↦ t | some u ↦ u ]))
      (ltb now t.last_time) refl refl

acknowledges-Same :
    (t : Transport) (o : Option Receiver) (now : ℕ) (due : Bool)
    → Same t (elim o as (λ _. Transport) [ none ↦ t | some r ↦ (acknowledge t r now due).0 ])
unfolding acknowledged
acknowledges-Same t none now due = refl
acknowledges-Same t (some r) now due =
    acknowledge_cases (λ o. Same t o.0) t r now due refl
      (ap (λ (k : ℕ). (t.received, k)) (forget_through-high t.unreported _))

call-Logs :
    (t : Transport) (c : Call) (l : List ℕ)
    → Logs (numbers t) l
    → Logs (numbers (call t c)) (log_call t c l)
unfolding call set_remote disable keep_alive expire_pending
call-Logs t (receives id f now) l v = receive-Logs t id f now l v
call-Logs t (sets_remote e adopted) l v = elim (Bool-cases (takes_epoch t.remote e adopted)) [
  | inl y ↦ subst (Logs _) (sym (if_true (takes_epoch t.remote e adopted) [] l y)) (
      subst (λ (r : Transport × Bool). Logs (numbers r.0) [])
        (sym (if_true (takes_epoch t.remote e adopted) _ _ y)) new_receipts-Logs)
  | inr unset ↦ subst (Logs _) (sym (if_false (takes_epoch t.remote e adopted) [] l unset)) (
      subst (λ (r : Transport × Bool). Logs (numbers r.0) l)
        (sym (if_false (takes_epoch t.remote e adopted) _ _ unset)) v)
]
call-Logs t (leases id remote_id now) l v =
    subst (λ w. Logs w l) (sym (path-Same t id remote_id now)) v
call-Logs t (disables id) l v = subst (λ w. Logs w l) (sym (on_lane-Same t id _ (λ p. refl))) v
call-Logs t (keeps_alive id interval now) l v =
    subst (λ w. Logs w l)
      (sym (
        on_lane-Same t id _
          (λ p. if_both (λ (r : Transport × Option Control). Same t r.0) _ refl refl)))
      v
call-Logs t (times_out id rto now) l v =
    subst (λ w. Logs w l) (sym (on_lane-Same t id _ (λ p. refl))) v
call-Logs t (expires now) l v = v
call-Logs t (sends d id now) l v =
    subst (λ w. Logs w l)
      (sym (on_lane-Same t id _ (λ p. transmit-Same t (record d { seq = 0 }) p now))) v
call-Logs t (repairs seq id now) l v =
    subst (λ w. Logs w l) (sym (repairs-Same t t.pending_order seq id now)) v
call-Logs t (acknowledges lane now due) l v =
    subst (λ w. Logs w l) (sym (acknowledges-Same t (find_receiver t.receivers lane) now due)) v

log_all-Logs :
    (t : Transport) (cs : List Call) (l : List ℕ)
    → Logs (numbers t) l
    → Logs (numbers (call_all t cs)) (log_all t cs l)
unfolding call_all
log_all-Logs t [] l v = v
log_all-Logs t (c ∷ cs) l v = log_all-Logs (call t c) cs (log_call t c l) (call-Logs t c l v)

new-Logs : (e : Epoch) (t : Transport) → new e ≡ some t → Logs (numbers t) []
unfolding new
new-Logs e t h = elim (Bool-cases (e.boot == 0 || e.generation == 0)) [
  | inl y ↦ cc (sym (if_true (e.boot == 0 || e.generation == 0) _ _ y) ∙ h)
  | inr unset ↦
      subst (λ (u : Transport). Logs (numbers u) [])
        (some-injective _ _ (sym (if_false (e.boot == 0 || e.generation == 0) _ _ unset) ∙ h))
        new_receipts-Logs
]

-- The log of any calls of a new transport is what its window has seen.
pub call_all-Logs :
    (e : Epoch) (t : Transport) (cs : List Call)
    → new e ≡ some t
    → Logs (numbers (call_all t cs)) (log_all t cs [])
call_all-Logs e t cs h = log_all-Logs t cs [] (new-Logs e t h)

-- Whatever is called on a new transport, in any order and with whatever frames, copies and replays,
-- the delivery sequences that it hands over until the remote epoch changes are distinct: no datagram
-- is handed over twice.
pub call_all-Once :
    (e : Epoch) (t : Transport) (cs : List Call) → new e ≡ some t → Distinct (log_all t cs [])
call_all-Once e t cs h = (call_all-Logs e t cs h).1.0
