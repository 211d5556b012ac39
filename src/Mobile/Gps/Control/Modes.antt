-- ===== src/Mobile/Gps/Control/Modes.antt =====
-- mobile/src/App.js: whether the source of fixes is the one that the two toggles show.
use web_dashboard.Prelude.{
  ℕ, zero, suc, ◌≡◌, refl, ◌∙◌, inl, inr, Bool, true, false, not, Option, none, some, List, [], ◌∷◌,
  arith, subst, sym, Bool-cases, ap, All, All-append, ◌&&◌,
}
use web_dashboard.Mobile.Gps.{Device, Permission, request_location_permission, State, start, stop}
use web_dashboard.Mobile.Gps.Sources.{Idle, choice, Runs, start-Runs}
use web_dashboard.Mobile.Gps.Calls.{OneSource, stop-Idle, start_again, fresh-Idle}
use web_dashboard.Mobile.Gps.Control.{
  Pilots, Control, first, start_options, start_gps_watch, press_start, on_permission, stop_gps,
  set_pilots, toggle_ios, toggle_android, asked_at, without, answer_asked, end_question, Event,
  starts, stops, ios_toggles, android_toggles, permits, fixed, fails, handle, run,
}

-- What runs when the button shows `running` and the toggles show `p`.
abbrev pub ShowsMode : Device → Bool → Pilots → State → Type 0
ShowsMode d true p s = Runs (choice d (start_options p)) s
ShowsMode d false p s = Idle s

record Inv (d : Device) (c : Control) : Type 0 where
  asked : All (λ q. q ≡ c.pilots) c.asking
  mode : ShowsMode d c.gps_running c.pilots c.gps

ShowsMode-OneSource :
    (d : Device) (running : Bool) (p : Pilots) (s : State) → ShowsMode d running p s → OneSource s
unfolding OneSource
ShowsMode-OneSource d true p s v = inr (choice d (start_options p), v)
ShowsMode-OneSource d false p s v = inl v

asked_as_shown :
    (shown : Pilots) (i : ℕ) (ps : List Pilots) (p : Pilots)
    → asked_at i ps ≡ some p
    → All (λ q. q ≡ shown) ps
    → p ≡ shown
asked_as_shown shown i [] p e h = ground arith
asked_as_shown shown zero (q ∷ ps) p e h = ground (arith, h.0)
asked_as_shown shown (suc i) (q ∷ ps) p e h = asked_as_shown shown i ps p e h.1

All-without : (P : Pilots → Type 0) (i : ℕ) (ps : List Pilots) → All P ps → All P (without i ps)
All-without P i [] h = h
All-without P zero (q ∷ ps) h = h.1
All-without P (suc i) (q ∷ ps) h = (h.0, All-without P i ps h.1)

-- Starting with the toggles that are shown.
start-Mode :
    (d : Device) (running : Bool) (p : Pilots) (s : State)
    → ShowsMode d running p s
    → Runs (choice d (start_options p)) (start d (start_options p) s)
start-Mode d true p s r =
    let k = choice d (start_options p) in
    subst (Runs k) (sym (start_again d (start_options p) k s r)) r
start-Mode d false p s v = start-Runs d (start_options p) s v

on_permission-Mode :
    (d : Device) (answer : Permission → Bool) (c : Control)
    → ShowsMode d c.gps_running c.pilots c.gps
    → let c' = on_permission d c.pilots answer c in ShowsMode d c'.gps_running c'.pilots c'.gps
unfolding on_permission start_gps_watch
on_permission-Mode d answer c v =
    elim (Bool-cases (request_location_permission d c.pilots.android_pilot answer).1) [
      | inl granted ↦ rw granted (start-Mode d c.gps_running c.pilots c.gps v)
      | inr refused ↦ rw refused v
    ]

on_permission_frame :
    (d : Device) (p : Pilots) (answer : Permission → Bool) (c : Control)
    → let c' = on_permission d p answer c in (c'.pilots ≡ c.pilots) × (c'.asking ≡ c.asking)
unfolding on_permission start_gps_watch
on_permission_frame d p answer c = ground arith

set_pilots-Mode :
    (d : Device) (p : Pilots) (c : Control)
    → ShowsMode d c.gps_running c.pilots c.gps
    → let c' = set_pilots d p c in
      ShowsMode d c'.gps_running c'.pilots c'.gps × (c'.pilots ≡ p) × (c'.asking ≡ c.asking)
unfolding set_pilots start_gps_watch
set_pilots-Mode d p c v = elim (Bool-cases c.gps_running) [
  | inl on ↦
      let idle = stop-Idle c.gps (ShowsMode-OneSource d c.gps_running c.pilots c.gps v) in
      let r = start-Runs d (start_options p) (stop c.gps) idle in rw on (r, refl, refl)
  | inr off ↦ rw off (subst (λ b. ShowsMode d b c.pilots c.gps) off v, refl, refl)
]

-- The toggles are left alone while a permission question is open.
abbrev pub no_question : List Pilots → Bool
no_question [] = true
no_question (p ∷ ps) = false

abbrev pub calm : Event → Control → Bool
calm ios_toggles c = no_question c.asking
calm android_toggles c = no_question c.asking
calm _ c = true

abbrev pub calm_run : Device → List Event → Control → Bool
calm_run d [] c = true
calm_run d (e ∷ es) c = calm e c && calm_run d es (handle d e c)

none_asked : (P : Pilots → Type 0) (ps : List Pilots) → no_question ps ≡ true → All P ps
none_asked P [] h = tt
none_asked P (p ∷ ps) h = ground arith

toggle-Inv :
    (d : Device) (p : Pilots) (c : Control)
    → no_question c.asking ≡ true
    → Inv d c
    → Inv d (set_pilots d p c)
toggle-Inv d p c closed v =
    let (mode, shown, kept) = set_pilots-Mode d p c v.mode in
    record { asked = none_asked _ _ (ap no_question kept ∙ closed); mode = mode }

end_question-Inv :
    (d : Device) (p : Option Pilots) (answer : Permission → Bool) (c : Control)
    → ((q : Pilots) → p ≡ some q → q ≡ c.pilots)
    → Inv d c
    → Inv d (end_question d p answer c)
unfolding end_question
end_question-Inv d none answer c same v = v
end_question-Inv d (some p) answer c same v =
    let f = on_permission_frame d p answer c in
    record {
      asked = rw (f.0, f.1) v.asked;
      mode =
          subst
            (λ q.
              let c' = on_permission d q answer c in ShowsMode d c'.gps_running c'.pilots c'.gps)
            (sym (same p refl)) (on_permission-Mode d answer c v.mode);
    }

handle-Inv :
    (d : Device) (e : Event) (c : Control) → calm e c ≡ true → Inv d c → Inv d (handle d e c)
unfolding handle press_start stop_gps toggle_ios toggle_android answer_asked
handle-Inv d starts c h v = record {
  asked = All-append (λ q. q ≡ c.pilots) c.asking (c.pilots ∷ []) v.asked (refl, tt);
  mode = v.mode;
}
handle-Inv d stops c h v = record {
  asked = v.asked;
  mode = stop-Idle c.gps (ShowsMode-OneSource d c.gps_running c.pilots c.gps v.mode);
}
handle-Inv d ios_toggles c h v = toggle-Inv d _ c h v
handle-Inv d android_toggles c h v = toggle-Inv d _ c h v
handle-Inv d (permits i answer) c h v =
    end_question-Inv d (asked_at i c.asking) answer (record c { asking = without i c.asking })
      (λ q e. asked_as_shown c.pilots i c.asking q e v.asked)
      (record { asked = All-without (λ q. q ≡ c.pilots) i c.asking v.asked; mode = v.mode })
handle-Inv d fixed c h v = record { asked = v.asked; mode = v.mode }
handle-Inv d (fails code) c h v = record { asked = v.asked; mode = v.mode }

run-Inv :
    (d : Device) (es : List Event) (c : Control)
    → calm_run d es c ≡ true
    → Inv d c
    → Inv d (run d es c)
unfolding run
run-Inv d [] c h v = v
run-Inv d (e ∷ es) c h v =
    run-Inv d es (handle d e c) (ground arith) (handle-Inv d e c (ground arith) v)

-- When the toggles are left alone while a permission question is open, the source that delivers fixes
-- is always the one that the toggles show: a bridge when its toggle is on, the phone is of its kind
-- and the bridge is there, and the watch otherwise; and none delivers when the button shows stopped.
pub mode_shown :
    (d : Device) (es : List Event)
    → calm_run d es (first d) ≡ true
    → let c = run d es (first d) in ShowsMode d c.gps_running c.pilots c.gps
unfolding first
mode_shown d es calm = (run-Inv d es (first d) calm (record { asked = tt; mode = fresh-Idle })).mode

-- When the GPS does not run, no source delivers and no permission question is open, and the GPS button
-- is pressed, then the Android toggle and the button to stop, and the user permits
-- the location only then, the GPS runs after all, on the source that the toggles showed at the first
-- press, while the Android toggle shows the opposite.
pub late_permission :
    (d : Device) (answer : Permission → Bool) (c : Control)
    → c.gps_running ≡ false
    → Idle c.gps
    → c.asking ≡ []
    → (request_location_permission d c.pilots.android_pilot answer).1 ≡ true
    → let c' = run d (starts ∷ android_toggles ∷ stops ∷ permits zero answer ∷ []) c in
      (c'.gps_running ≡ true)
      × (c'.pilots.android_pilot ≡ not c.pilots.android_pilot)
      × Runs (choice d (start_options c.pilots)) c'.gps
unfolding run handle press_start toggle_android set_pilots stop_gps answer_asked end_question
    on_permission start_gps_watch
late_permission d answer c off idle none_open granted =
    let stopped = stop-Idle c.gps (ShowsMode-OneSource d false c.pilots c.gps idle) in
    rw (off, none_open, granted)
      (refl, refl, start-Runs d (start_options c.pilots) (stop c.gps) stopped)
