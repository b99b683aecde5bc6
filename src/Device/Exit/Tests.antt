-- ===== src/Device/Exit/Tests.antt =====
-- The selector over three exits and an engine that takes every insert but one.
use fecalia.Base.{
  ℕ, ◌≡◌, refl, Bool, true, false, not, Option, none, some, List, [], ◌∷◌, ◌==◌, if◌then◌else◌,
  if_true,
}
use fecalia.Device.Exit.{
  ExitPeer, contains, Engine, auto, fixed, Selector, new_exit_selector, enable_auto_promotion,
  enable_rtt_selection, switch, set_mode, keep_mode, switch_to, repoint, resubscribe, subscribe,
  promote, evaluate_auto, on_active_exhausted, retry_exhausted_promotion, first_healthy_standby,
  first_healthy, closest, candidate,
}
use fecalia.Device.Exit.Invariant.{IsValid, Moved, switch_lem}
use fecalia.Device.Exit.Start.{new_exit_selector-Built, enable_auto_promotion-IsValid}
use fecalia.Device.Exit.Run.{Call, operate, exhaust, call, call_all, call_all-IsValid}

-- What the tests compute with.
computing : Unit {0}
unfolding new_exit_selector enable_auto_promotion enable_rtt_selection switch set_mode keep_mode
    switch_to repoint resubscribe subscribe promote evaluate_auto on_active_exhausted
    retry_exhausted_promotion first_healthy_standby first_healthy closest candidate call call_all
computing = tt

-- The engine is its owners.
abbrev trie : Engine (ℕ → ℕ)
trie = record {
  ipc_set = λ e key splits. ((λ s. if contains splits s then key else e s), true);
  owner = λ e s. e s;
  steals = λ e key splits s ok h. if_true (contains splits s) _ _ h;
}

abbrev exits : List (ℕ × ExitPeer)
exits =
    (1, record { public_key = 11; splits = 0 ∷ 128 ∷ [] })
    ∷ (2, record { public_key = 12; splits = 0 ∷ 128 ∷ [] })
    ∷ (3, record { public_key = 13; splits = 0 ∷ 128 ∷ [] })
    ∷ []

abbrev or_else : Option Selector → Selector → Selector
or_else none s = s
or_else (some s) _ = s

abbrev empty_selector : Selector
empty_selector = record {
  active = 0;
  mode = auto;
  last_switch = none;
  exits = λ _. none;
  order = [];
  has_rtt = false;
  has_health = false;
  ctrls = none;
  subs = λ _. none;
}

abbrev booted : Selector
booted = or_else (new_exit_selector exits) empty_selector

booted-IsValid : IsValid booted
unfolding computing
booted-IsValid = new_exit_selector-Built exits

-- The exits 1 and 3 have controllers.
abbrev ctrls : Option (ℕ → Bool)
ctrls = some (λ n. not (n == 2))

booted_off : booted.ctrls ≡ none
unfolding computing
booted_off = refl

abbrev wired : Selector
wired = enable_auto_promotion booted ctrls true

abbrev owners : ℕ → ℕ
owners s = 11

switch_lem_example : Moved trie owners booted 3 50 (switch trie owners booted 3 50)
switch_lem_example = switch_lem trie owners booted 3 50 booted-IsValid

abbrev rtt : ℕ → Option ℕ
rtt n = if n == 1 then some 40 else (if n == 2 then some 30 else some 20)

-- The exit 3 is closest, but not healthy.
abbrev healthy : ℕ → Bool
healthy n = not (n == 3)

closest_returns : closest healthy rtt none (1 ∷ 2 ∷ 3 ∷ []) ≡ some (2, 30)
unfolding computing
closest_returns = refl

-- The operator's choice, a stale exhaustion of the first exit, and one of the chosen exit.
abbrev calls : List Call
calls = operate (fixed 3) 50 ∷ exhaust 1 60 healthy ∷ exhaust 3 70 healthy ∷ []

calls_end : (call_all trie (owners, wired) calls).1.active ≡ 1
unfolding computing
calls_end = refl

call_all-IsValid_example : IsValid (call_all trie (owners, wired) calls).1
call_all-IsValid_example =
    call_all-IsValid trie (owners, wired) calls
      (enable_auto_promotion-IsValid booted ctrls true booted-IsValid booted_off)
