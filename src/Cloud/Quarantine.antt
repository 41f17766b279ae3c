-- ===== src/Cloud/Quarantine.antt =====
-- `hook_friends_update`: which connection states hold the game's update back, and what is logged.
use Prim.Native.Nat.{min}
use old_pixel_gun_3d_online.Base.{
  ℕ, zero, suc, ◌+◌, ◌%◌, ◌/◌, ◌^◌, ◌<◌, ◌≤◌, ◌≡◌, ◌≢◌, ◌↔◌, Bool-cases, refl, ap, ◌∙◌, inl, inr,
  true, false, ◌||◌, leb, ◌==◌, some, [], ◌∷◌, length, Ptr, is_null, ℤ, pos, negsuc, arith,
  if◌then◌else◌,
}
use old_pixel_gun_3d_online.State.{Env, State, ptr, friends_update}
use old_pixel_gun_3d_online.State.Monad.{M, ◌>>◌, pure}
use old_pixel_gun_3d_online.Cloud.{
  hook_friends_update, connection_state, should_quarantine_friends_update, call_original, u32,
}

-- A state that is neither idle (Uninitialized, PeerCreated, or -1 for "no getter") nor Disconnected.
abbrev pub IsActive : ℤ → Type 0
IsActive (pos n) = (2 ≤ n) × (n ≢ 15)
IsActive (negsuc n) = ⊥

-- FriendsController.Update is held back in exactly the connection states from Queued on, other than
-- Disconnected; the -1 of a missing getter never holds it back.
pub quarantine-IsActive : (z : ℤ) → (should_quarantine_friends_update z ≡ true) ↔ IsActive z
unfolding should_quarantine_friends_update
quarantine-IsActive (pos n) = ground arith
quarantine-IsActive (negsuc n) = ground arith

-- The lines of the log are throttled: the first eight, then every 120th.
abbrev pub logged_at : ℕ → ℕ
logged_at count = if leb count 8 || count % 120 == 0 then 1 else 0

module _ {W : Type 0} (E : Env W) (self method : Ptr) (s t : State W) (z : ℤ) where
  -- What an update that is held back leaves behind.
  pub record Skipped (s' : State W) : Type 0 where
    pub counted : s'.cloud.quarantined_updates ≡ (t.cloud.quarantined_updates + 1) % 2 ^ 32
    pub logged :
        length s'.log ≡ length t.log + logged_at ((t.cloud.quarantined_updates + 1) % 2 ^ 32)
    pub world : s'.world ≡ t.world
    pub ready : s'.cloud.cloud_ready ≡ t.cloud.cloud_ready
    pub originals : s'.originals ≡ t.originals
    pub getter : s'.cloud.state_fn ≡ t.cloud.state_fn
    pub getter_method : s'.cloud.state_method ≡ t.cloud.state_method

  -- Once the connection state is known to be `z`: if it is active the game's own Update is not
  -- called, the world is untouched, the skip is counted (modulo 2 ^ 32), and logged for the first
  -- eight and every 120th; otherwise the game's own Update runs, with nothing done before it.
  pub hook_friends_update_cases :
      connection_state E s ≡ some (z, t)
      → (IsActive z
          → (s' : State W) × (hook_friends_update E self method s ≡ some (tt, s')) × Skipped s')
        × ((¬ IsActive z)
            → hook_friends_update E self method s
              ≡ call_original E E.invoke_void friends_update (ptr self ∷ ptr method ∷ []) t)
  unfolding hook_friends_update
  hook_friends_update_cases e = (
    λ active.
        rw (e, (quarantine-IsActive z).1 active)
          (elim (Bool-cases (
            leb (u32 (t.cloud.quarantined_updates + 1)) 8
            || u32 (t.cloud.quarantined_updates + 1) % 120 == 0)) [
              | inl l ↦ rw l (
                _,
                refl,
                record {
                  counted = refl;
                  logged = rw l (omega arith);
                  world = refl;
                  ready = refl;
                  originals = refl;
                  getter = refl;
                  getter_method = refl;
                },
              )
              | inr l ↦ rw l (
                _,
                refl,
                record {
                  counted = refl;
                  logged = rw l (omega arith);
                  world = refl;
                  ready = refl;
                  originals = refl;
                  getter = refl;
                  getter_method = refl;
                },
              )
            ]),
    λ idle. elim (Bool-cases (should_quarantine_friends_update z)) [
      | inl q ↦ absurd (idle ((quarantine-IsActive z).0 q))
      | inr q ↦ rw (e, q)
    ],
  )

-- How often a run of updates is logged, one more update.
lines-suc : (n : ℕ) → min (suc n) 8 + suc n / 120 ≡ min n 8 + n / 120 + logged_at (n + 1)
lines-suc n = ground arith

module _ {W : Type 0} (E : Env W) (self method : Ptr) (z : ℤ) where
  -- `n` calls of the hook, one after the other.
  unfoldable pub updates : ℕ → M W (Unit {0})
  updates zero = pure tt
  updates (suc n) = updates n >> hook_friends_update E self method

  cached :
      (fn getter : Ptr)
      → is_null fn ≡ false
      → ((t : State W) → E.invoke_int fn (ptr getter ∷ []) t ≡ some (z, t))
      → (t : State W) → t.cloud.state_fn ≡ fn
      → t.cloud.state_method ≡ getter
      → connection_state E t ≡ some (z, t)
  unfolding connection_state
  cached fn getter there reads t e m = simp (e, m, there, reads t)

  -- While the cached getter is there, reports an active state and changes nothing, `n` updates
  -- (fewer than 2 ^ 32) from a fresh counter all return, leave the world and the cached getter
  -- alone, count to `n`, and log `min n 8 + n / 120` lines.
  pub updates_throttled :
      (fn getter : Ptr)
      → is_null fn ≡ false
      → ((t : State W) → E.invoke_int fn (ptr getter ∷ []) t ≡ some (z, t))
      → IsActive z
      → (n : ℕ) → n < 2 ^ 32
      → (s : State W) → s.cloud.state_fn ≡ fn
      → s.cloud.state_method ≡ getter
      → s.cloud.quarantined_updates ≡ 0
      → (s' : State W) × (updates n s ≡ some (tt, s'))
        × (s'.cloud.quarantined_updates ≡ n)
        × (length s'.log ≡ length s.log + (min n 8 + n / 120))
        × (s'.world ≡ s.world)
        × (s'.cloud.state_fn ≡ fn)
        × (s'.cloud.state_method ≡ getter)
  unfolding updates
  updates_throttled fn getter there reads active zero b s f m fresh =
      (s, refl, fresh, omega arith, refl, f, m)
  updates_throttled fn getter there reads active (suc n) b s f m fresh =
      let (t, run, count, log, world, f', m') =
        updates_throttled fn getter there reads active n (omega arith) s f m fresh in
      let (s', step, after) =
        (hook_friends_update_cases E self method t t z (cached fn getter there reads t f' m')).0
          active in
      let wrapped : (t.cloud.quarantined_updates + 1) % 2 ^ 32 ≡ n + 1 = omega (arith, count) in
      (
        s',
        rw (run, step),
        after.counted ∙ wrapped ∙ omega arith,
        omega (arith, after.logged, ap logged_at wrapped, log, lines-suc n),
        after.world ∙ world,
        after.getter ∙ f',
        after.getter_method ∙ m',
      )
