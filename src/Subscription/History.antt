-- ===== src/Subscription/History.antt =====
-- The histories of one subscription: src/Subscription.cpp with Activity::HookPersistCommand and
-- Activity::UnhookPersistCommand of src/Activity.cpp.
use activitymanager.Prelude.{ℕ, zero, suc, Bool, false, List, [], ◌∷◌, ltb}
use activitymanager.Types.{Event}
use activitymanager.Subscription.{Subscription, queue_event, plug, unplug}

-- What happens to a subscription: an event, Plug and Unplug, and a persist command that is hooked
-- to its Activity or leaves it; when the last one leaves, Activity::UnhookPersistCommand unplugs.
pub data Op : Type 0 where
  queues : Event → Op
  plugs unplugs hooks unhooks : Op

-- The number of hooked commands, and the subscription.
abbrev pub Conn : Type 0
Conn = ℕ × Subscription

abbrev pub hooked : ℕ → Bool
hooked n = ltb 0 n

abbrev pub unhook : ℕ → Subscription → Conn
unhook zero s = (zero, s)
unhook (suc zero) s = (zero, unplug false s)
unhook (suc (suc n)) s = (suc n, s)

unfoldable pub step : Conn → Op → Conn
step (n, s) (queues e) = (n, queue_event (hooked n) e s)
step (n, s) plugs = (n, plug s)
step (n, s) unplugs = (n, unplug (hooked n) s)
step (n, s) hooks = (suc n, s)
step (n, s) unhooks = unhook n s

unfoldable pub run : Conn → List Op → Conn
run c [] = c
run c (o ∷ os) = run (step c o) os
