-- ===== src/Mobile/Gps/Calls.antt =====
-- mobile/src/telemetry/gps-client.js: calls of `start` and `stop` in any order.
use web_dashboard.Prelude.{◌≡◌, refl, ◌⊎◌, inl, inr, List, [], ◌∷◌, arith, subst, sym}
use web_dashboard.Mobile.Gps.{Device, StartOptions, State, start, stop, new, quiet_sensors}
use web_dashboard.Mobile.Gps.Sources.{
  Idle, Kind, by_watch, by_bridge, choice, Runs, start-Runs, stop_watch-Idle, stop_bridge-Idle,
  stop-Idle-Idle,
}

-- Either no source delivers fixes, or one does.
unfoldable pub OneSource : State → Type 0
OneSource s = Idle s ⊎ ((k : Kind) × Runs k s)

stop-Runs-Idle : (k : Kind) (s : State) → Runs k s → Idle (stop s)
unfolding Runs
stop-Runs-Idle by_watch s (w, v) = stop_watch-Idle w s v
stop-Runs-Idle (by_bridge b) s (i, v) = stop_bridge-Idle b i s v

pub stop-Idle : (s : State) → OneSource s → Idle (stop s)
unfolding OneSource
stop-Idle s (inl v) = stop-Idle-Idle s v
stop-Idle s (inr (k, r)) = stop-Runs-Idle k s r

-- `start` while a source runs does nothing.
pub start_again :
    (d : Device) (o : StartOptions) (k : Kind) (s : State) → Runs k s → start d o s ≡ s
unfolding Runs start
start_again d o by_watch s (w, v) = ground (arith, v.watch_id)
start_again d o (by_bridge b) s (i, v) = ground (arith, v.watch_id, v.using)

-- Calls of `start` and `stop`, in any order.
pub data Call : Type 0 where
  starts : StartOptions → Call
  stops : Call

abbrev pub run : Device → List Call → State → State
run d [] s = s
run d (starts o ∷ cs) s = run d cs (start d o s)
run d (stops ∷ cs) s = run d cs (stop s)

pub start-OneSource :
    (d : Device) (o : StartOptions) (s : State) → OneSource s → OneSource (start d o s)
unfolding OneSource
start-OneSource d o s (inl v) = inr (choice d o, start-Runs d o s v)
start-OneSource d o s (inr (k, r)) = inr (k, subst (Runs k) (sym (start_again d o k s r)) r)

run-OneSource : (d : Device) (cs : List Call) (s : State) → OneSource s → OneSource (run d cs s)
unfolding OneSource
run-OneSource d [] s v = v
run-OneSource d (starts o ∷ cs) s v = run-OneSource d cs (start d o s) (start-OneSource d o s v)
run-OneSource d (stops ∷ cs) s v = run-OneSource d cs (stop s) (inl (stop-Idle s v))

abbrev pub fresh : State
fresh = record { client = new; sensors = quiet_sensors }

pub fresh-Idle : Idle fresh
fresh-Idle = record {
  watch_id = refl;
  using = refl;
  watches = λ i. refl;
  listeners = λ i. refl;
  ios = refl;
  android = refl;
}

-- After any calls of `start` and `stop` at most one source delivers fixes: the watch with one number,
-- or one bridge with one listener for its locations, and the object's fields name it. A `stop` then
-- leaves nothing that delivers fixes, no listener and no bridge running, and a `start` after it starts
-- the source that the phone and the options call for.
pub one_source :
    (d : Device) (cs : List Call) (o : StartOptions)
    → let s = run d cs fresh in OneSource s × Idle (stop s) × Runs (choice d o) (start d o (stop s))
unfolding OneSource
one_source d cs o =
    let v = run-OneSource d cs fresh (inl fresh-Idle) in
    let idle = stop-Idle (run d cs fresh) v in (v, idle, start-Runs d o _ idle)
