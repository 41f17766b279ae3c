-- ===== src/Init/Poll.antt =====
-- What the waits of `init_thread` that only read the process find, and how long they sleep.
use old_pixel_gun_3d_online.Base.{
  ℕ, zero, suc, ◌*◌, ◌∙◌, ◌<◌, ◌≡◌, ◌⊎◌, inl, inr, refl, Bool, true, false, some, arith, Bool-cases,
}
use old_pixel_gun_3d_online.State.{Env, State}
use old_pixel_gun_3d_online.State.Monad.{gets}
use old_pixel_gun_3d_online.Init.{wait_step_us, wait_steps}
use old_pixel_gun_3d_online.Init.Thread.{poll}

module _ {W A : Type 0} (E : Env W) (found : A → Bool) (look : State W → A) where
  -- The state after `i` sleeps of 10 ms.
  pub rested : ℕ → State W → State W
  rested zero s = s
  rested (suc i) s = rested i (record s { world = E.usleep wait_step_us s.world })

  -- What is seen after each number of sleeps below `n` will not do.
  abbrev pub Waits : ℕ → State W → Type 0
  Waits n s = (j : ℕ) → j < n → found (look (rested j s)) ≡ false

  -- Within `left` rounds it is found, after the fewest sleeps that will do; or it is not found, and
  -- what was seen in the last round is returned after `left` sleeps.
  abbrev pub Outcome : ℕ → A → State W → Type 0
  Outcome left a s =
      ((i : ℕ) × (i < left)
        × Waits i s
        × (found (look (rested i s)) ≡ true)
        × (poll E found (gets look) left a s ≡ some (look (rested i s), rested i s)))
      ⊎ (Waits left s
          × ((last : A) × (found last ≡ false)
              × (poll E found (gets look) left a s ≡ some (last, rested left s))))

  Waits-suc :
      (n : ℕ) (s : State W)
      → found (look s) ≡ false
      → Waits n (record s { world = E.usleep wait_step_us s.world })
      → Waits (suc n) s
  unfolding rested
  Waits-suc n s now later zero b = now
  Waits-suc n s now later (suc j) b = later j (omega arith)

  poll-found :
      (left : ℕ) (a : A) (s : State W)
      → found a ≡ true
      → poll E found (gets look) left a s ≡ some (a, s)
  unfolding poll
  poll-found zero a s there = refl
  poll-found (suc n) a s there = rw there refl

  poll_zero : (a : A) (s : State W) → poll E found (gets look) 0 a s ≡ some (a, s)
  unfolding poll
  poll_zero a s = refl

  module _ (left : ℕ) (a : A) (s : State W) (missing : found a ≡ false) where
    poll_now : found (look s) ≡ true → poll E found (gets look) (suc left) a s ≡ some (look s, s)
    unfolding poll
    poll_now there = rw (missing, there) (poll-found left (look s) s there)

    poll_later :
        found (look s) ≡ false
        → poll E found (gets look) (suc left) a s
          ≡ poll E found
              (gets look)
              left
              (look s)
              (record s { world = E.usleep wait_step_us s.world })
    unfolding poll
    poll_later still = rw (missing, still) refl

  poll_from : (left : ℕ) (a : A) (s : State W) → found a ≡ false → Outcome left a s
  unfolding rested
  poll_from zero a s missing = inr (λ j b. absurd (omega arith), (a, missing, poll_zero a s))
  poll_from (suc left) a s missing = elim (Bool-cases (found (look s))) [
    | inl there ↦
        inl (0, omega arith, λ j b. absurd (omega arith), there, poll_now left a s missing there)
    | inr still ↦
        elim (poll_from left (look s) (record s { world = E.usleep wait_step_us s.world }) still) [
          | inl (i, b, waits, there, same) ↦ inl (
            suc i,
            omega arith,
            Waits-suc i s still waits,
            there,
            poll_later left a s missing still ∙ same,
          )
          | inr (waits, (last, none_left, same)) ↦ inr (
            Waits-suc left s still waits,
            (last, none_left, poll_later left a s missing still ∙ same),
          )
        ]
  ]

  -- A wait of `init_thread` that reads the process, from a value that will not do: either it returns
  -- what it sees after the fewest sleeps of 10 ms, fewer than 6000, with which it finds what it waits
  -- for, having slept just so often; or what it sees will not do after any number of sleeps below
  -- 6000, and it returns such a value after 6000 sleeps, which is a minute.
  pub poll-Outcome :
      (a : A) (s : State W)
      → found a ≡ false
      → (wait_steps * wait_step_us ≡ 60 * 1000000) × Outcome wait_steps a s
  poll-Outcome a s missing = (refl, poll_from wait_steps a s missing)
