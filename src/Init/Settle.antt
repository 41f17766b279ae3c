-- ===== src/Init/Settle.antt =====
-- What the settled assembly list means, and that a list which does not change settles.
use native.Mathlib.Decide.{ℕ_discrete, dec_lt}
use old_pixel_gun_3d_online.Base.{
  ℕ, zero, suc, ◌+◌, ◌≡◌, ◌≢◌, ◌≤◌, ◌<◌, ◌⊎◌, inl, inr, refl, sym, ◌∙◌, true, false, ltb, Ptr,
  arith, Bool-cases,
}
use old_pixel_gun_3d_online.State.{Platform, Export}
use old_pixel_gun_3d_online.Init.{
  settle, assembly_count, next_stable, stable_checks, wait_step_us, wait_steps,
}

module _ {W : Type 0} (P : Platform W) (slots : Export → Ptr) (domain : Ptr) (w : W) where
  -- The world after `i` steps of the loop, and what was sampled in it.
  pub naps : ℕ → W
  naps zero = w
  naps (suc i) = P.usleep wait_step_us (naps i)

  abbrev pub sample : ℕ → ℕ
  sample i = assembly_count P slots domain (naps i)

  -- In front of round `i`: the last `stable + 1` samples were `last`, which is not 0.
  abbrev Streak : (i last stable : ℕ) → Type 0
  Streak i last stable =
      ((last ≡ 0) × (stable ≡ 0))
      ⊎ ((last ≢ 0)
          × ((lo : ℕ) × (lo + stable + 1 ≡ i) × ((j : ℕ) → lo ≤ j → j < i → sample j ≡ last)))

  module _ (now last stable : ℕ) where
    next_stable_reset : (now ≡ 0) ⊎ (now ≢ last) → next_stable P slots domain now last stable ≡ 0
    next_stable_reset h = ground arith

    next_stable_counts :
        now ≢ 0 → now ≡ last → next_stable P slots domain now last stable ≡ stable + 1
    next_stable_counts ne same = ground arith

    next_stable_bounded :
        stable < stable_checks → next_stable P slots domain now last stable ≤ stable_checks
    next_stable_bounded b = ground arith

  one_more :
      (i j lo last : ℕ)
      → sample i ≡ last
      → ((k : ℕ) → lo ≤ k → k < i → sample k ≡ last)
      → lo ≤ j
      → j < suc i
      → sample j ≡ last
  one_more i j lo last now before l m = elim (dec_lt j i) [
    | yes b ↦ before j l b
    | no b ↦ let same : j ≡ i = omega arith in rw same now
  ]

  Streak-suc :
      (i last stable : ℕ)
      → Streak i last stable
      → Streak (suc i) (sample i) (next_stable P slots domain (sample i) last stable)
  Streak-suc i last stable s = elim (ℕ_discrete (sample i) 0) [
    | yes z ↦ inl (z, next_stable_reset _ last stable (inl z))
    | no ne ↦ elim (ℕ_discrete (sample i) last) [
      | no other ↦
          let reset = next_stable_reset (sample i) last stable (inr other) in
          inr (
            ne,
            (
              i,
              omega (arith, reset),
              λ j l m. one_more i j i (sample i) refl (λ k l' m'. absurd (omega arith)) l m,
            ),
          )
      | yes same ↦
          let counts = next_stable_counts (sample i) last stable ne same in
          elim s [
            | inl (z, none_yet) ↦ absurd (ne (same ∙ z))
            | inr (there, (lo, sum, all)) ↦ inr (
              ne,
              (
                lo,
                omega (arith, counts, sum),
                λ j l m. one_more i j lo (sample i) refl (λ k l' m'. all k l' m' ∙ sym same) l m,
              ),
            )
          ]
    ]
  ]

  -- A count other than 0 that 26 of the 6000 rounds, in a row, have found.
  abbrev pub IsSettled : ℕ → Type 0
  IsSettled last =
      (last ≢ 0)
      × ((lo : ℕ) × (lo + stable_checks < wait_steps)
          × ((j : ℕ) → lo ≤ j → j ≤ lo + stable_checks → sample j ≡ last))

  Streak-IsSettled :
      (i last stable : ℕ)
      → Streak i last stable
      → i ≤ wait_steps
      → stable ≡ stable_checks
      → IsSettled last
  Streak-IsSettled i last stable (inl (z, none_yet)) r full = absurd (omega (arith, none_yet, full))
  Streak-IsSettled i last stable (inr (ne, (lo, sum, all))) r full =
      (ne, (lo, omega (arith, sum, full), λ j l m. all j l (omega (arith, sum, full))))

  module _ (left last stable : ℕ) (v : W) where
    settle_on :
        ltb stable stable_checks ≡ true
        → settle P slots domain (suc left) last stable v
          ≡ settle P slots domain left
              (assembly_count P slots domain v)
              (next_stable P slots domain (assembly_count P slots domain v) last stable)
              (P.usleep wait_step_us v)
    unfolding settle
    settle_on go = rw go refl

    settle_stop :
        ltb stable stable_checks ≡ false
        → settle P slots domain (suc left) last stable v ≡ (last, stable, v)
    unfolding settle
    settle_stop full = rw full refl

  settle_from :
      (left i last stable : ℕ)
      → Streak i last stable
      → left + i ≤ wait_steps
      → stable ≤ stable_checks
      → stable_checks ≤ (settle P slots domain left last stable (naps i)).1
      → IsSettled (settle P slots domain left last stable (naps i)).0
  unfolding naps
  settle_from zero i last stable s r b =
      unfold settle in λ full. Streak-IsSettled i last stable s (omega arith) (omega arith)
  settle_from (suc left) i last stable s r b = elim (Bool-cases (ltb stable stable_checks)) [
    | inl go ↦ rw (settle_on left last stable (naps i) go) (
        settle_from left (suc i) _ _ (Streak-suc i last stable s) (omega arith)
          (next_stable_bounded (sample i) last stable (ground arith)))
    | inr full ↦
        rw (settle_stop left last stable (naps i) full)
          (λ f. Streak-IsSettled i last stable s (omega arith) (ground arith))
  ]

  module _ (c : ℕ) (there : c ≢ 0) (k : ℕ) (constant : (j : ℕ) → k ≤ j → sample j ≡ c) where
    -- The list is registered, and was counted before.
    settle_counts :
        (left i stable : ℕ)
        → k ≤ i
        → stable ≤ stable_checks
        → stable_checks ≤ left + stable
        → stable_checks ≤ (settle P slots domain left c stable (naps i)).1
    unfolding naps
    settle_counts zero i stable l b enough = unfold settle in omega arith
    settle_counts (suc left) i stable l b enough = elim (Bool-cases (ltb stable stable_checks)) [
      | inl go ↦
          let counts = next_stable_counts c c stable there refl in
          rw (settle_on left c stable (naps i) go, constant i l, counts)
            (settle_counts left (suc i) (stable + 1) (omega arith) (ground arith) (omega arith))
      | inr full ↦ rw (settle_stop left c stable (naps i) full) (ground arith)
    ]

    settle_waits :
        (left i d last stable : ℕ)
        → i + d ≡ k
        → stable ≤ stable_checks
        → d + stable_checks + 1 ≤ left
        → stable_checks ≤ (settle P slots domain left last stable (naps i)).1
    unfolding naps
    settle_waits zero i d last stable e b enough = absurd (omega arith)
    settle_waits (suc left) i zero last stable e b enough =
        elim (Bool-cases (ltb stable stable_checks)) [
          | inl go ↦
              rw (settle_on left last stable (naps i) go, constant i (omega (arith, e)))
                (settle_counts left (suc i) (next_stable P slots domain c last stable)
                  (omega (arith, e)) (next_stable_bounded c last stable (ground arith))
                  (omega arith))
          | inr full ↦ rw (settle_stop left last stable (naps i) full) (ground arith)
        ]
    settle_waits (suc left) i (suc d) last stable e b enough =
        elim (Bool-cases (ltb stable stable_checks)) [
          | inl go ↦ rw (settle_on left last stable (naps i) go) (
              settle_waits left (suc i) d _ _ (omega arith)
                (next_stable_bounded (sample i) last stable (ground arith)) (omega arith))
          | inr full ↦ rw (settle_stop left last stable (naps i) full) (ground arith)
        ]

  -- If the loop of 6000 rounds ends with 25 or more equal samples in a row, the count that it
  -- reports is not 0, and 26 consecutive samples of the assembly count were equal to it.
  pub settle-IsSettled :
      stable_checks ≤ (settle P slots domain wait_steps 0 0 w).1
      → IsSettled (settle P slots domain wait_steps 0 0 w).0
  unfolding naps
  settle-IsSettled = settle_from wait_steps 0 0 0 (inl (refl, refl)) (omega arith) (omega arith)

  -- An assembly list that stops changing in time, with a count other than 0 from some round on that
  -- leaves 26 rounds, is found to be settled.
  pub settle_succeeds :
      (c k : ℕ)
      → c ≢ 0
      → k + stable_checks + 1 ≤ wait_steps
      → ((j : ℕ) → k ≤ j → sample j ≡ c)
      → stable_checks ≤ (settle P slots domain wait_steps 0 0 w).1
  unfolding naps
  settle_succeeds c k there time constant =
      settle_waits c there k constant wait_steps 0 k 0 0 (omega arith) (omega arith) (omega arith)
