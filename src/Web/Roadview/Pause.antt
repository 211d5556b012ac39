-- ===== src/Web/Roadview/Pause.antt =====
-- client/naver-roadview.js: how long no address is asked for after a request has failed.
use web_dashboard.Prelude.{
  ℕ, zero, suc, ◌+◌, ◌-◌, ◌<◌, ◌≡◌, refl, ap, ◌∙◌, min, max, true, false, Option, none, some, arith,
  if◌then◌else◌, ◌==◌, ◌||◌,
}
use web_dashboard.Web.Geo.{Point}
use web_dashboard.Web.Roadview.{
  Roadview, on_reply, give_up, limit, fail, succeed, answered, refused, threw, Reply, update, reply,
  parse_retry_after, backoff, State, enabled, handle, Reach, here, next,
}
use web_dashboard.Web.Roadview.Pacing.{update_from_fix-Outcome}

-- How a request ended, as far as later requests go: nothing to wait for, a wait in milliseconds,
-- or no more requests at all.
pub data Pause : Type 0 where
  no_pause : Pause
  wait_for : ℕ → Pause
  for_good : Pause

-- The wait after `n` failures in a row before this one: 5, 10, 20, 40 and then 60 seconds.
abbrev pub ramp : ℕ → ℕ
ramp zero = 5000
ramp (suc zero) = 10000
ramp (suc (suc zero)) = 20000
ramp (suc (suc (suc zero))) = 40000
ramp n = 60000

backoff-ramp : (n : ℕ) → backoff n ≡ ramp n
unfolding backoff
backoff-ramp zero = refl
backoff-ramp (suc zero) = refl
backoff-ramp (suc (suc zero)) = refl
backoff-ramp (suc (suc (suc zero))) = refl
backoff-ramp (suc (suc (suc (suc n)))) =
    let capped : min (suc (suc (suc (suc n)))) 4 ≡ 4 = omega arith in rw capped refl

-- At least five seconds, whatever the server asks for; the ramp when it asks for nothing.
abbrev pub asked_wait : Option ℕ → ℕ → ℕ
asked_wait none fails = ramp fails
asked_wait (some wait) fails = max 5000 wait

abbrev pub pause : Reply → ℕ → ℕ → Pause
pause (answered a) date fails = no_pause
pause threw date fails = wait_for (ramp fails)
pause (refused code header) date fails =
    if code == 401 || code == 403
    then for_good
    else wait_for
        (if code == 429 then asked_wait (parse_retry_after header date) fails else ramp fails)

record Cooled (r : Roadview) (until : ℕ) : Type 0 where
  idle : r.in_flight ≡ false
  cooldown : r.cooldown_until_ms ≡ until

limit-Cooled :
    (wait : Option ℕ) (now : ℕ) (r : Roadview)
    → Cooled (limit wait now r) (now + asked_wait wait r.fail_count)
unfolding limit
limit-Cooled none now r = record {
  idle = refl;
  cooldown = ap (λ w. now + w) (backoff-ramp r.fail_count);
}
limit-Cooled (some wait) now r = record { idle = refl; cooldown = refl }

fail-Cooled : (now : ℕ) (r : Roadview) → Cooled (fail now r) (now + ramp r.fail_count)
unfolding fail
fail-Cooled now r =
    let back : r.fail_count + 1 - 1 ≡ r.fail_count = omega arith in
    record {
      idle = refl;
      cooldown = ap (λ k. now + backoff k) back ∙ ap (λ w. now + w) (backoff-ramp r.fail_count);
    }

on_reply-Cooled :
    (a : Reply) (now date w : ℕ) (r : Roadview)
    → pause a date r.fail_count ≡ wait_for w
    → Cooled (on_reply a now date r) (now + w)
unfolding on_reply
on_reply-Cooled (answered a) now date w r h = ground arith
on_reply-Cooled (refused code header) now date w r h =
    let asked = limit-Cooled (parse_retry_after header date) now r in
    let other = fail-Cooled now r in
    record {
      idle = ground (arith, asked.idle, other.idle);
      cooldown = ground (arith, asked.cooldown, other.cooldown);
    }
on_reply-Cooled threw now date w r h =
    let other = fail-Cooled now r in
    record { idle = other.idle; cooldown = ground (arith, other.cooldown) }

on_reply-disabled :
    (a : Reply) (now date : ℕ) (r : Roadview)
    → r.disabled ≡ true
    → (on_reply a now date r).disabled ≡ true
unfolding on_reply give_up limit fail succeed
on_reply-disabled (answered a) now date r h = h
on_reply-disabled (refused code header) now date r h = ground arith
on_reply-disabled threw now date r h = h

on_reply-gives_up :
    (a : Reply) (now date : ℕ) (r : Roadview)
    → pause a date r.fail_count ≡ for_good
    → (on_reply a now date r).disabled ≡ true
unfolding on_reply give_up limit fail succeed
on_reply-gives_up (answered a) now date r h = ground arith
on_reply-gives_up (refused code header) now date r h = ground arith
on_reply-gives_up threw now date r h = ground arith

-- What stays the same while no request may start.
record Quiet (s t : State) : Type 0 where
  requests : t.requests ≡ s.requests
  idle : t.view.in_flight ≡ false
  cooldown : t.view.cooldown_until_ms ≡ s.view.cooldown_until_ms

module _ (metres : Point → Point → Option ℕ) where
  cooling-Quiet :
      (s t : State)
      → s.view.in_flight ≡ false
      → Reach metres s t
      → t.clock < s.view.cooldown_until_ms
      → Quiet s t
  unfolding handle enabled
  cooling-Quiet s _ idle here early = record { requests = refl; idle = idle; cooldown = refl }
  cooling-Quiet s _ idle (next {t} (update fix stale now) r e) early =
      let q = cooling-Quiet s t idle r (ground arith) in
      let o = update_from_fix-Outcome metres fix stale now t.view in
      record {
        requests = ground (arith, q.requests, q.cooldown, o.cooled);
        idle = ground (arith, q.idle, q.cooldown, o.cooled, o.flight);
        cooldown = o.cooldown ∙ q.cooldown;
      }
  cooling-Quiet s _ idle (next {t} (reply a now date) r e) early =
      let q = cooling-Quiet s t idle r (ground arith) in
      record {
        requests = q.requests;
        idle = ground (arith, q.idle);
        cooldown = ground (arith, q.idle);
      }

  stopped :
      (s t : State)
      → s.view.disabled ≡ true
      → Reach metres s t
      → (t.requests ≡ s.requests) × (t.view.disabled ≡ true)
  unfolding handle
  stopped s _ off here = (refl, off)
  stopped s _ off (next {t} (update fix stale now) r e) =
      let (same, off') = stopped s t off r in
      let o = update_from_fix-Outcome metres fix stale now t.view in
      (ground (arith, same, off', o.wanted), o.disabled ∙ off')
  stopped s _ off (next {t} (reply a now date) r e) =
      let (same, off') = stopped s t off r in (same, on_reply-disabled a now date t.view off')

  -- When a request ends in a failure that is not 401 or 403, no fix that comes in before its wait is
  -- over starts another one. The wait is 5, 10, 20, 40 and then 60 seconds as the failures counted
  -- before it grow, whether the request threw, was refused, or hit the limit of the service without a
  -- time to retry at; with such a time it is that time, and five seconds at the least.
  pub quiet_after_failure :
      (s t : State) (a : Reply) (now date w : ℕ)
      → pause a date s.view.fail_count ≡ wait_for w
      → Reach metres (handle metres (reply a now date) s) t
      → t.clock < now + w
      → t.requests ≡ s.requests
  unfolding handle
  quiet_after_failure s t a now date w h r early =
      let c = on_reply-Cooled a now date w s.view h in
      (cooling-Quiet _ t c.idle r (ground (arith, c.cooldown))).requests

  -- After an answer 401 or 403 no fix ever starts another request.
  pub silent_after_refusal :
      (s t : State) (a : Reply) (now date : ℕ)
      → pause a date s.view.fail_count ≡ for_good
      → Reach metres (handle metres (reply a now date) s) t
      → t.requests ≡ s.requests
  unfolding handle
  silent_after_refusal s t a now date h r =
      (stopped _ t (on_reply-gives_up a now date s.view h) r).0
