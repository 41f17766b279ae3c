-- ===== src/Log/Order.antt =====
-- The numbers and times of the lines of the log.
use old_pixel_gun_3d_online.Base.{
  ℕ, suc, ◌+◌, ◌-◌, ◌%◌, ◌^◌, ◌≤◌, ◌≡◌, refl, ap, inl, inr, true, false, leb, List, [], ◌∷◌, All,
  length, arith, Bool-cases, if◌then◌else◌,
}
use old_pixel_gun_3d_online.Log.{
  System, Logger, Entry, Call, millis, monotonic_ms, start_clock, print, print_each,
}

module _ {W : Type 0} (S : System W) where
  -- The lines are numbered one after the other from `n` on.
  abbrev pub Numbered : ℕ → List Entry → Type 0
  Numbered n [] = Unit
  Numbered n (e ∷ es) = (e.sequence ≡ n % 2 ^ 32) × Numbered (n + 1) es

  start_clock-sequence : (w : W) (l : Logger) → (start_clock S w l).0.g_sequence ≡ l.g_sequence
  unfolding start_clock
  start_clock-sequence w l = elim (Bool-cases l.clock_once) [
    | inl e ↦ rw e refl
    | inr e ↦ rw e refl
  ]

  print-sequence :
      (c : Call W) (w : W) (l : Logger) (n : ℕ)
      → l.g_sequence ≡ n % 2 ^ 32
      → let (e, m, v) = print S c.priority c.return_address c.text w l in
        (e.sequence ≡ (n + 1) % 2 ^ 32) × (m.g_sequence ≡ (n + 1) % 2 ^ 32)
  unfolding print
  print-sequence c w l n e = rw (start_clock-sequence w l, e) (omega arith, omega arith)

  -- The lines of a run have the numbers behind the last one that was given, without a gap and modulo
  -- 2^32, and there is one line for each call.
  pub print_each-Numbered :
      (calls : List (Call W)) (w : W) (l : Logger) (n : ℕ)
      → l.g_sequence ≡ n % 2 ^ 32
      → Numbered (n + 1) (print_each S calls w l) × (length (print_each S calls w l) ≡ length calls)
  unfolding print_each
  print_each-Numbered [] w l n e = (tt, refl)
  print_each-Numbered (c ∷ cs) w l n e =
      let (shown, kept) = print-sequence c (c.before w) l n e in
      let (rest, size) = print_each-Numbered cs _ _ (n + 1) kept in ((shown, rest), ap suc size)

-- What CLOCK_MONOTONIC promises: a call succeeds, and time does not run backwards.
pub record Steady {W : Type 0} (S : System W) : Type 0 where
  pub ticks : W → ℕ
  pub read : (w : W) → millis (S.clock_gettime w).0 ≡ ticks w
  pub passes : (w : W) → ticks w ≤ ticks (S.clock_gettime w).1

elapsed_since :
    (origin now m : ℕ)
    → origin + m ≤ now
    → (m ≤ (if leb origin now then now - origin else 0))
      × (origin + (if leb origin now then now - origin else 0) ≡ now)
elapsed_since origin now m b = ground arith

module _ {W : Type 0} (S : System W) (steady : Steady S) where
  open steady use {ticks}

  -- No line shows less time than the one before.
  abbrev pub Ascending : ℕ → List Entry → Type 0
  Ascending m [] = Unit
  Ascending m (e ∷ es) = (m ≤ e.elapsed) × Ascending e.elapsed es

  -- The clock's origin is not in the future, and the last line has shown at most the time since.
  record Running (m : ℕ) (w : W) (l : Logger) : Type 0 where
    running : l.clock_once ≡ true → l.g_clock_origin_ms + m ≤ ticks w
    stopped : l.clock_once ≡ false → m ≡ 0

  start_clock-Running :
      (m : ℕ) (w : W) (l : Logger)
      → Running m w l
      → ((start_clock S w l).0.clock_once ≡ true)
        × ((start_clock S w l).0.g_clock_origin_ms + m ≤ ticks (start_clock S w l).1)
  unfolding start_clock
  start_clock-Running m w l r = elim (Bool-cases l.clock_once) [
    | inl e ↦ rw e (refl, r.running e)
    | inr e ↦ rw e (refl, omega (arith, r.stopped e, steady.read w, steady.passes w))
  ]

  print-Running :
      (c : Call W) (m : ℕ) (w : W) (l : Logger)
      → Running m w l
      → let (e, k, v) = print S c.priority c.return_address c.text w l in
        (m ≤ e.elapsed) × Running e.elapsed v k
  unfolding print
  print-Running c m w l r =
      let (started, since) = start_clock-Running m w l r in
      let (k, u) = start_clock S w l in
      let (more, sum) =
        elapsed_since k.g_clock_origin_ms (monotonic_ms S u).0 m
          (omega (arith, since, steady.read u)) in
      (
        more,
        record {
          running = λ e. omega (arith, sum, steady.read u, steady.passes u);
          stopped = λ e. ground (arith, e, started);
        },
      )

  print_each-from :
      (calls : List (Call W)) (m : ℕ) (w : W) (l : Logger)
      → All (λ c. (v : W) → ticks v ≤ ticks (c.before v)) calls
      → Running m w l
      → Ascending m (print_each S calls w l)
  unfolding print_each
  print_each-from [] m w l forward r = tt
  print_each-from (c ∷ cs) m w l (later, forward) r =
      let (more, running) =
        print-Running c m (c.before w) l
          (record { running = λ e. omega (arith, r.running e, later w); stopped = r.stopped }) in
      (more, print_each-from cs _ _ _ forward running)

  -- If the clock works, does not run backwards, and is started at the first line or has been started
  -- before: whatever the process does between the calls, no line of a run shows less time than the
  -- line in front of it.
  pub print_each-Ascending :
      (calls : List (Call W)) (w : W) (l : Logger)
      → All (λ c. (v : W) → ticks v ≤ ticks (c.before v)) calls
      → (l.clock_once ≡ true → l.g_clock_origin_ms ≤ ticks w)
      → Ascending 0 (print_each S calls w l)
  print_each-Ascending calls w l forward since =
      print_each-from calls 0 w l forward
        (record { running = λ e. omega (arith, since e); stopped = λ e. refl })
