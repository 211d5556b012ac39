-- ===== src/Mobile/Gps/Control/Shown.antt =====
-- mobile/src/App.js: whether the GPS buttons show what runs.
use web_dashboard.Prelude.{
  inl, inr, Bool, true, false, Option, none, some, List, [], ◌∷◌, subst, sym, Bool-cases,
}
use web_dashboard.Mobile.Gps.{Device, Permission, request_location_permission, State, stop}
use web_dashboard.Mobile.Gps.Sources.{Idle, Kind, choice, Runs, start-Runs}
use web_dashboard.Mobile.Gps.Calls.{OneSource, stop-Idle, start_again, fresh-Idle}
use web_dashboard.Mobile.Gps.Control.{
  Pilots, Control, first, start_options, start_gps_watch, press_start, on_permission, stop_gps,
  set_pilots, toggle_ios, toggle_android, asked_at, without, answer_asked, end_question, Event,
  starts, stops, ios_toggles, android_toggles, permits, fixed, fails, handle, run,
}

-- What runs when the button shows `running`: one source of fixes, or none.
abbrev pub Shows : Bool → State → Type 0
Shows true s = (k : Kind) × Runs k s
Shows false s = Idle s

pub Shows-OneSource : (running : Bool) (s : State) → Shows running s → OneSource s
unfolding OneSource
Shows-OneSource true s v = inr v
Shows-OneSource false s v = inl v

start-Shows :
    (d : Device) (p : Pilots) (c : Control)
    → OneSource c.gps
    → Shows (start_gps_watch d p c).gps_running (start_gps_watch d p c).gps
unfolding OneSource start_gps_watch
start-Shows d p c (inl v) = (choice d (start_options p), start-Runs d (start_options p) c.gps v)
start-Shows d p c (inr (k, r)) =
    (k, subst (Runs k) (sym (start_again d (start_options p) k c.gps r)) r)

set_pilots-Shows :
    (d : Device) (p : Pilots) (c : Control)
    → Shows c.gps_running c.gps
    → Shows (set_pilots d p c).gps_running (set_pilots d p c).gps
unfolding set_pilots OneSource
set_pilots-Shows d p c v = elim (Bool-cases c.gps_running) [
  | inl on ↦
      let idle = stop-Idle c.gps (Shows-OneSource c.gps_running c.gps v) in
      let r = start-Shows d p (record c { pilots = p; gps = stop c.gps }) (inl idle) in rw on r
  | inr off ↦ rw off (subst (λ b. Shows b c.gps) off v)
]

on_permission-Shows :
    (d : Device) (p : Pilots) (answer : Permission → Bool) (c : Control)
    → Shows c.gps_running c.gps
    → let c' = on_permission d p answer c in Shows c'.gps_running c'.gps
unfolding on_permission
on_permission-Shows d p answer c v =
    elim (Bool-cases (request_location_permission d p.android_pilot answer).1) [
      | inl granted ↦ rw granted (start-Shows d p c (Shows-OneSource c.gps_running c.gps v))
      | inr refused ↦ rw refused v
    ]

end_question-Shows :
    (d : Device) (p : Option Pilots) (answer : Permission → Bool) (c : Control)
    → Shows c.gps_running c.gps
    → let c' = end_question d p answer c in Shows c'.gps_running c'.gps
unfolding end_question
end_question-Shows d none answer c v = v
end_question-Shows d (some p) answer c v = on_permission-Shows d p answer c v

pub handle-Shows :
    (d : Device) (e : Event) (c : Control)
    → Shows c.gps_running c.gps
    → Shows (handle d e c).gps_running (handle d e c).gps
unfolding handle press_start stop_gps toggle_ios toggle_android answer_asked
handle-Shows d starts c v = v
handle-Shows d stops c v = stop-Idle c.gps (Shows-OneSource c.gps_running c.gps v)
handle-Shows d ios_toggles c v = set_pilots-Shows d _ c v
handle-Shows d android_toggles c v = set_pilots-Shows d _ c v
handle-Shows d (permits i answer) c v =
    end_question-Shows d (asked_at i c.asking) answer (record c { asking = without i c.asking }) v
handle-Shows d fixed c v = v
handle-Shows d (fails code) c v = v

run-Shows :
    (d : Device) (es : List Event) (c : Control)
    → Shows c.gps_running c.gps
    → Shows (run d es c).gps_running (run d es c).gps
unfolding run
run-Shows d [] c v = v
run-Shows d (e ∷ es) c v = run-Shows d es (handle d e c) (handle-Shows d e c v)

-- After any presses of the GPS buttons and of the toggles, answers to permission questions in any
-- order, fixes and errors: when the button shows that the GPS runs, one source delivers fixes, and
-- when it does not, none does.
pub button-Shows :
    (d : Device) (es : List Event) → let c = run d es (first d) in Shows c.gps_running c.gps
unfolding first
button-Shows d es = run-Shows d es (first d) fresh-Idle
