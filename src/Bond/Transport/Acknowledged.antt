-- ===== src/Bond/Transport/Acknowledged.antt =====
-- The acknowledgement that a transport makes, as the other endpoint reads it.
use fecalia.Base.{ℕ, Bool, not, ◌&&◌, ◌||◌, Option, none, some, ltb, ◌==◌, if◌then◌else◌, if_both}
use fecalia.Frame.{Control}
use fecalia.Bond.Receipts.{oldest}
use fecalia.Bond.Transport.{Transport, Lane, Receiver, find_lane, up}
use fecalia.Bond.Transport.Send.{acknowledged, acknowledge}

-- Nothing is sent, or the acknowledgement is.
pub acknowledge_cases :
    (P : Transport × Option Control → Type 0) (t : Transport) (r : Receiver) (now : ℕ) (due : Bool)
    → P (t, none)
    → P (acknowledged t r now)
    → P (acknowledge t r now due)
unfolding acknowledge
acknowledge_cases P t r now due silent sent = by_lane (find_lane t.paths r.path)
  where
    by_lane :
        (o : Option Lane)
        → P (elim o as (λ _. Transport × Option Control) [
          | none ↦ (t, none)
          | some p ↦
              if up p now && (ltb 0 r.pending || not (oldest t.unreported == 0)) && due
              then acknowledged t r now
              else (t, none)
        ])
    by_lane none = silent
    by_lane (some p) =
        if_both P (up p now && (ltb 0 r.pending || not (oldest t.unreported == 0)) && due) sent
          silent
