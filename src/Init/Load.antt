-- ===== src/Init/Load.antt =====
-- `on_load` of main.cpp. The calls of pthread are parameters.
use old_pixel_gun_3d_online.Base.{
  ◌≡◌, refl, inl, inr, true, false, [], ◌∷◌, Ptr, arith, ℤ, int_eq, Bool-cases,
}
use old_pixel_gun_3d_online.State.{State, error}
use old_pixel_gun_3d_online.State.Monad.{M, ◌>>=◌, acts, changes, branch, loge, Returns}

-- What `pthread_create` returns, the handle that it stores, and the world after it.
pub record Created (W : Type 0) : Type 0 where
  pub code : ℤ
  pub handle : Ptr
  pub after : W

pub record Pthread (W : Type 0) : Type 0 where
  pub pthread_create : W → Created W
  pub pthread_detach : Ptr → W → W

module _ {W : Type 0} (pthread : Pthread W) where
  unfoldable pub on_load : M W (Unit {0})
  on_load = do
    (code, thread) ← acts (λ w. let r = pthread.pthread_create w in ((r.code, r.handle), r.after))
    branch (int_eq code 0) (changes (pthread.pthread_detach thread))
        (loge "init: pthread_create failed" [])

  -- The constructor returns, and changes nothing but the world and the log: where the thread is
  -- there, it is detached and nothing is logged; where it is not, one error is logged.
  on_load_outcome :
      (s : State W)
      → let r = pthread.pthread_create s.world in
        Returns (on_load s) (λ _ t.
          (int_eq r.code 0 ≡ true
            → t ≡ record s { world = pthread.pthread_detach r.handle r.after })
          × (int_eq r.code 0 ≡ false
              → t ≡ record s {
                world = r.after;
                log =
                    record { level = error; text = "init: pthread_create failed"; args = [] }
                    ∷ s.log;
              }))
  unfolding on_load
  on_load_outcome s = elim (Bool-cases (int_eq (pthread.pthread_create s.world).code 0)) [
    | inl made ↦ rw made (λ e. refl, λ e. absurd (ground (arith, e)))
    | inr failed ↦ rw failed (λ e. absurd (ground (arith, e)), λ e. refl)
  ]
