-- ===== src/Web/Auth/Latched.antt =====
-- client/naver-map.js: a failure that is found is shown from then on.
use web_dashboard.Prelude.{
  ◌≡◌, refl, ap, ◌∙◌, sym, subst, inl, inr, Bool-cases, Bool, true, Option, none, some, List, [],
  ◌∷◌, ◌&&◌, arith, if◌then◌else◌,
}
use web_dashboard.Mobile.Address.{Text}
use web_dashboard.Web.Geo.{GpsFix, Point, valid_point}
use web_dashboard.Web.Map.{
  NaverMap, auth_failure, fail_auth, update_from_fix, show_valid, show, push_trail,
}
use web_dashboard.Web.Auth.{
  Argument, Window, has_failure_text, joined, set_auth_failed, on_console, watch_auth, Step, logs,
  watches, updates, step, run,
}

-- The map knows of the failure and shows it.
record Shows (m : NaverMap) : Type 0 where
  failed : m.auth_failed ≡ true
  hint : m.hint ≡ some auth_failure

push_trail_failed : (p : Point) (m : NaverMap) → (push_trail p m).auth_failed ≡ m.auth_failed
unfolding push_trail
push_trail_failed p m = ground arith

show-Shows :
    (p : Point) (fix : GpsFix) (stale : Bool) (m : NaverMap) → Shows m → Shows (show p fix stale m)
unfolding show push_trail
show-Shows p fix stale m h = record {
  failed = push_trail_failed p m ∙ h.failed;
  hint = rw (h.failed) h.hint;
}

show_valid-Shows :
    (p : Option Point) (fix : GpsFix) (stale : Bool) (m : NaverMap)
    → Shows m
    → Shows (show_valid p fix stale m)
show_valid-Shows none fix stale m h = h
show_valid-Shows (some p) fix stale m h = elim (Bool-cases m.ready) [
  | inl ready ↦
      subst Shows (sym (ap (λ b. if b then show p fix stale m else m) ready))
        (show-Shows p fix stale m h)
  | inr missing ↦ subst Shows (sym (ap (λ b. if b then show p fix stale m else m) missing)) h
]

update-Shows :
    (fix : Option GpsFix) (stale : Bool) (m : NaverMap)
    → Shows m
    → Shows (update_from_fix fix stale m)
unfolding update_from_fix
update-Shows none stale m h = h
update-Shows (some fix) stale m h = show_valid-Shows (valid_point (some fix)) fix stale m h

abbrev Known : Window → Type 0
Known w = w.auth_failed ≡ true

on_console-Known : (args : List Argument) (w : Window) → Known w → Known (on_console args w)
unfolding on_console set_auth_failed
on_console-Known args w h =
    elim (Bool-cases (w.probe_installed && has_failure_text (joined args))) [
      | inl found ↦ rw found refl
      | inr other ↦ rw other h
    ]

on_console_finds :
    (args : List Argument) (w : Window)
    → w.probe_installed ≡ true
    → has_failure_text (joined args) ≡ true
    → Known (on_console args w)
unfolding on_console set_auth_failed
on_console_finds args w installed found = rw (installed, found) refl

-- The interval, once the window knows.
watch_auth_again :
    (content : Text) (w : Window) (m : NaverMap)
    → Known w
    → watch_auth content w m ≡ (w, fail_auth m)
unfolding watch_auth
watch_auth_again content w m h = rw h refl

step-Known : (e : Step) (w : Window) (m : NaverMap) → Known w → Known (step e (w, m)).0
unfolding step
step-Known (logs args) w m h = on_console-Known args w h
step-Known (watches content) w m h = subst (λ s. Known s.0) (sym (watch_auth_again content w m h)) h
step-Known (updates fix stale) w m h = h

run-Known : (es : List Step) (w : Window) (m : NaverMap) → Known w → Known (run es (w, m)).0
unfolding run
run-Known [] w m h = h
run-Known (e ∷ es) w m h = let s = step e (w, m) in run-Known es (s.0) (s.1) (step-Known e w m h)

step-Shows : (e : Step) (w : Window) (m : NaverMap) → Known w → Shows m → Shows (step e (w, m)).1
unfolding step fail_auth
step-Shows (logs args) w m k h = h
step-Shows (watches content) w m k h =
    subst (λ s. Shows s.1) (sym (watch_auth_again content w m k))
      (record { failed = refl; hint = refl })
step-Shows (updates fix stale) w m k h = update-Shows fix stale m h

run-Shows :
    (es : List Step) (w : Window) (m : NaverMap) → Known w → Shows m → Shows (run es (w, m)).1
unfolding run
run-Shows [] w m k h = h
run-Shows (e ∷ es) w m k h =
    let s = step e (w, m) in run-Shows es (s.0) (s.1) (step-Known e w m k) (step-Shows e w m k h)

-- Once the console gets a text that tells of a failed authentication, with the probe installed, then
-- from the next interval of the watch on the map shows the failure, whatever is logged, whatever the
-- container says and whatever fixes come, before that interval and after it.
pub logged_failure :
    (args : List Argument) (es fs : List Step) (content : Text) (w : Window) (m : NaverMap)
    → w.probe_installed ≡ true
    → has_failure_text (joined args) ≡ true
    → (run fs (step (watches content) (run es (step (logs args) (w, m))))).1.hint
      ≡ some auth_failure
unfolding step fail_auth
logged_failure args es fs content w m installed found =
    let s = run es (on_console args w, m) in
    let known = run-Known es (on_console args w) m (on_console_finds args w installed found) in
    subst (λ t. (run fs t).1.hint ≡ some auth_failure)
      (sym (watch_auth_again content (s.0) (s.1) known))
      ((run-Shows fs (s.0) (fail_auth (s.1)) known (record { failed = refl; hint = refl })).hint)
