-- ===== src/Web/Roadview/Pacing.antt =====
-- client/naver-roadview.js: how often the address is asked for, and where the panorama looks.
use web_dashboard.Prelude.{
  ℕ, ◌+◌, ◌*◌, ◌≤◌, ◌≡◌, refl, ◌∙◌, Bool, true, false, Option, none, some, List, [], ◌∷◌, ℤ, abs_ℕ,
  arith, if◌then◌else◌,
}
use web_dashboard.Web.Geo.{degree, Point, GpsFix, valid_point, normalize_pan}
use web_dashboard.Web.Geo.Angles.{SameDirection, normalize_pan_lem}
use web_dashboard.Web.Roadview.{
  Roadview, update_from_fix, update_at, aim, maybe_reverse_geocode, may_ask, on_reply, give_up,
  limit, fail, succeed, answered, refused, threw, Reply, update, reply, State, enabled, handle,
  Reach, here, next, start, new,
}

-- The latest of some times, or the time 0 of the page.
abbrev pub latest : List ℕ → ℕ
latest [] = 0
latest (t ∷ ts) = t

-- Times, the latest first, with five seconds from each to the next and before the first.
abbrev pub Spaced : List ℕ → Type 0
Spaced [] = Unit
Spaced (t ∷ ts) = latest ts + 5000 ≤ t × Spaced ts

-- What `updateFromFix` does to the fields of the address, by whether it asks.
pub record Outcome (now : ℕ) (r r' : Roadview) (asked : Bool) : Type 0 where
  pub disabled : r'.disabled ≡ r.disabled
  pub cooldown : r'.cooldown_until_ms ≡ r.cooldown_until_ms
  pub fails : r'.fail_count ≡ r.fail_count
  pub kept : asked ≡ false → r'.last_geocode_at_ms ≡ r.last_geocode_at_ms
  pub flight : asked ≡ false → r'.in_flight ≡ r.in_flight
  pub asks : asked ≡ true → r'.last_geocode_at_ms ≡ now
  pub waited : asked ≡ true → r.last_geocode_at_ms + 5000 ≤ now
  pub cooled : asked ≡ true → r.cooldown_until_ms ≤ now
  pub wanted : asked ≡ true → r.disabled ≡ false
  pub alone : asked ≡ true → r.in_flight ≡ false

module _ (metres : Point → Point → Option ℕ) where
  same-Outcome : (now : ℕ) (r : Roadview) → Outcome now r r false
  same-Outcome now r = record {
    disabled = refl;
    cooldown = refl;
    fails = refl;
    kept = λ h. refl;
    flight = λ h. refl;
    asks = ground arith;
    waited = ground arith;
    cooled = ground arith;
    wanted = ground arith;
    alone = ground arith;
  }

  update_at-Outcome :
      (p : Option Point) (fix : GpsFix) (stale : Bool) (now : ℕ) (r : Roadview)
      → let u = update_at metres p fix stale now r in Outcome now r u.0 u.1
  unfolding update_at aim maybe_reverse_geocode may_ask
  update_at-Outcome none fix stale now r = same-Outcome now r
  update_at-Outcome (some p) fix stale now r = record {
    disabled = ground arith;
    cooldown = ground arith;
    fails = ground arith;
    kept = ground arith;
    flight = ground arith;
    asks = ground arith;
    waited = ground arith;
    cooled = ground arith;
    wanted = ground arith;
    alone = ground arith;
  }

  pub update_from_fix-Outcome :
      (fix : Option GpsFix) (stale : Bool) (now : ℕ) (r : Roadview)
      → let u = update_from_fix metres fix stale now r in Outcome now r u.0 u.1
  unfolding update_from_fix
  update_from_fix-Outcome none stale now r = same-Outcome now r
  update_from_fix-Outcome (some fix) stale now r =
      update_at-Outcome (valid_point (some fix)) fix stale now r

  on_reply-last :
      (r : Reply) (now date : ℕ) (v : Roadview)
      → (on_reply r now date v).last_geocode_at_ms ≡ v.last_geocode_at_ms
  unfolding on_reply give_up limit fail succeed
  on_reply-last (answered a) now date v = refl
  on_reply-last (refused code header) now date v = ground arith
  on_reply-last threw now date v = refl

record Inv (s : State) : Type 0 where
  spaced : Spaced s.requests
  last : s.view.last_geocode_at_ms ≡ latest s.requests
  past : latest s.requests ≤ s.clock

module _ (metres : Point → Point → Option ℕ) where
  ask-Inv :
      (now : ℕ) (s : State) (view : Roadview) (asked : Bool)
      → Outcome now s.view view asked
      → Inv s
      → s.clock ≤ now
      → Inv (record {
        view = view;
        clock = now;
        requests = if asked then now ∷ s.requests else s.requests;
      })
  ask-Inv now s view true o v h = record {
    spaced = (omega (arith, o.waited refl, v.last), v.spaced);
    last = o.asks refl;
    past = omega arith;
  }
  ask-Inv now s view false o v h = record {
    spaced = v.spaced;
    last = o.kept refl ∙ v.last;
    past = omega (arith, v.past);
  }

  reply-Inv :
      (r : Reply) (now date : ℕ) (s : State)
      → Inv s
      → s.clock ≤ now
      → Inv (handle metres (reply r now date) s)
  unfolding handle
  reply-Inv r now date s v h = record {
    spaced = v.spaced;
    last = on_reply-last metres r now date s.view ∙ v.last;
    past = omega (arith, v.past);
  }

  Reach-Inv : (ready : Bool) (s : State) → Reach metres (start ready) s → Inv s
  unfolding handle enabled new
  Reach-Inv ready _ here = record { spaced = tt; last = refl; past = omega arith }
  Reach-Inv ready _ (next {t} (update fix stale now) r e) =
      ask-Inv now t _ _ (update_from_fix-Outcome metres fix stale now t.view) (Reach-Inv ready t r)
        (ground arith)
  Reach-Inv ready _ (next {t} (reply a now date) r e) =
      reply-Inv a now date t (Reach-Inv ready t r) (ground arith)

  -- Whatever fixes come in and however the requests end, two requests for an address start at least
  -- five seconds apart, and the first starts no earlier than five seconds after the page's time 0.
  pub requests-Spaced :
      (ready : Bool) (s : State) → Reach metres (start ready) s → Spaced s.requests
  requests-Spaced ready s r = (Reach-Inv ready s r).spaced

  -- A valid fix with a heading, on a ready panorama, turns it to an angle within half a turn either
  -- way that is in the direction of the heading; whether the fix is stale does not matter.
  pub pan_faces_heading :
      (fix : GpsFix) (p : Point) (heading : ℤ) (stale : Bool) (now : ℕ) (r : Roadview)
      → r.ready ≡ true
      → valid_point (some fix) ≡ some p
      → fix.hdg ≡ some heading
      → (pan : ℤ) × ((update_from_fix metres (some fix) stale now r).0.pan ≡ some pan)
        × (abs_ℕ pan ≤ 180 * degree)
        × SameDirection pan heading
  unfolding update_from_fix update_at aim maybe_reverse_geocode may_ask
  pan_faces_heading fix p heading stale now r ready valid has =
      let range = normalize_pan_lem heading in
      (normalize_pan (some heading), ground arith, range.0, range.1)
