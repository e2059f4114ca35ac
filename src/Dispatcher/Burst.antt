-- ===== src/Dispatcher/Burst.antt =====
-- The windows of the rate limit follow one another, they do not roll: about twice the limit gets
-- through around the end of one.
use mathlib.Core.List.{append-nil}
use chronos_monitor.Prelude.{
  ℕ, zero, suc, ◌+◌, ◌-◌, ◌≤◌, ◌<◌, pos, ◌≤ℤ◌, ◌+ℤ◌, ◌-ℤ◌, leb_ℤ, ◌≡◌, refl, ◌∙◌, true, false, List,
  [], ◌∷◌, ◌++◌, arith,
}
use chronos_monitor.Clock.{Time, sub, max_duration}
use chronos_monitor.Broker.{Event}
use chronos_monitor.Dispatcher.{
  Dispatcher, new_dispatcher, roll, allow, is_alert, notified, handle, run,
}
use chronos_monitor.Dispatcher.Limit.{count_sent}

abbrev pub repeated : ℕ → Event → Time → List (Event × Time)
repeated zero evt now = []
repeated (suc k) evt now = (evt, now) ∷ repeated k evt now

module _ (n w : ℕ) (positive : 0 < n) (evt : Event) (alert : is_alert evt.kind ≡ true) where
  handle_open :
      (now : Time) (d : Dispatcher)
      → d.limit ≡ pos n
      → d.window ≡ pos w
      → leb_ℤ (pos w) (sub now d.window_start) ≡ false
      → d.window_count < n
      → handle evt now d ≡ (notified evt.task, record d { window_count = d.window_count + 1 })
  unfolding handle allow
  handle_open now d l e early room =
      let unlimited : leb_ℤ d.limit (pos 0) ≡ false = rw l (ground arith) in
      let same : roll now d ≡ d = rw (e, early) refl in
      let more : leb_ℤ d.limit (pos d.window_count) ≡ false = rw l (ground arith) in
      rw (alert, unlimited, same, more) refl

  handle_rolled :
      (now : Time) (d : Dispatcher)
      → d.limit ≡ pos n
      → d.window ≡ pos w
      → leb_ℤ (pos w) (sub now d.window_start) ≡ true
      → handle evt now d ≡ (notified evt.task, record d { window_start = now; window_count = 1 })
  unfolding handle allow
  handle_rolled now d l e late =
      let fresh : Dispatcher = record d { window_start = now; window_count = 0 } in
      let unlimited : leb_ℤ d.limit (pos 0) ≡ false = rw l (ground arith) in
      let same : roll now d ≡ fresh = rw (e, late) refl in
      let more : leb_ℤ fresh.limit (pos fresh.window_count) ≡ false = rw l (ground arith) in
      rw (alert, unlimited, same, more) refl

  -- A state of the limiter, by its two variables.
  abbrev at : Time → ℕ → Dispatcher
  at start count = record {
    limit = pos n;
    window = pos w;
    window_start = start;
    window_count = count;
  }

  run_open :
      (k : ℕ) (now start : Time) (count : ℕ) (rest : List (Event × Time))
      → leb_ℤ (pos w) (sub now start) ≡ false
      → count + k ≤ n
      → count_sent (run (repeated k evt now ++ rest) (at start count)).0
        ≡ k + count_sent (run rest (at start (count + k))).0
  unfolding run count_sent
  run_open zero now start count rest early room =
      let e : count + 0 ≡ count = omega arith in rw e (omega arith)
  run_open (suc k) now start count rest early room =
      let e : count + 1 + k ≡ count + suc k = omega arith in
      rw (handle_open now (at start count) refl refl early (omega arith))
        (omega (arith, rw e at (run_open k now start (count + 1) rest early (omega arith))))

-- The time that has passed since `s`.
elapsed : (s : Time) (k : ℕ) → pos k ≤ℤ max_duration → sub (s +ℤ pos k) s ≡ pos k
unfolding sub ◌+ℤ◌ ◌-ℤ◌
elapsed s k h = ground arith

elapsed_self : (s : Time) → sub s s ≡ pos 0
unfolding sub ◌-ℤ◌
elapsed_self s = ground arith

since_zero :
    (s : Time) (w : ℕ) → pos w ≤ℤ max_duration → pos w ≤ℤ s → leb_ℤ (pos w) (sub s (pos 0)) ≡ true
unfolding sub ◌-ℤ◌
since_zero s w fits h = ground arith

-- A limit of n = m + 1 alerts and a window of `w` nanoseconds, and a first alert at a time `s`:
-- then m more alerts at one nanosecond before the end of the window and n alerts at its end are
-- all sent, 2n - 1 within one nanosecond.
pub count_sent_burst :
    (m w : ℕ) (evt : Event) (s : Time)
    → is_alert evt.kind ≡ true
    → 0 < w
    → pos w ≤ℤ max_duration
    → pos w ≤ℤ s
    → count_sent
        (run
          (repeated m evt (s +ℤ pos (w - 1)) ++ repeated (suc m) evt (s +ℤ pos w))
          (handle evt s (new_dispatcher (pos (suc m)) (pos w))).1).0
      ≡ m + suc m
unfolding run count_sent
count_sent_burst m w evt s alert wide fits late =
    let end = s +ℤ pos w in
    let near : leb_ℤ (pos w) (sub (s +ℤ pos (w - 1)) s) ≡ false =
      rw (elapsed s (w - 1) (omega arith)) (ground arith) in
    let past : leb_ℤ (pos w) (sub end s) ≡ true = rw (elapsed s w fits) (ground arith) in
    let still : leb_ℤ (pos w) (sub end end) ≡ false = rw (elapsed_self end) (ground arith) in
    let second_window =
      run_open (suc m) w (omega arith) evt alert m end end 1 [] still (omega arith) in
    let first_window =
      run_open (suc m) w (omega arith) evt alert m (s +ℤ pos (w - 1)) s 1 (repeated (suc m) evt end)
        near (omega arith) in
    rw
      (handle_rolled (suc m) w (omega arith) evt alert s (new_dispatcher (pos (suc m)) (pos w)) refl
        refl (since_zero s w fits late))
      (first_window
        ∙ rw
            (handle_rolled (suc m) w (omega arith) evt alert end
              (at (suc m) w (omega arith) evt alert s (1 + m)) refl refl past)
            (omega (arith, rw append-nil at second_window)))
