-- ===== src/Photon/Hooks/SetUp.antt =====
-- `hook_set_up_photon`: the original, then the build's configuration of the settings.
use Prim.Native.String.{String}
use old_pixel_gun_3d_online.Base.{◌≡◌, refl, Option, none, some, [], ◌∷◌, Ptr}
use old_pixel_gun_3d_online.State.{Env, State, info, nat, ptr, set_up_photon}
use old_pixel_gun_3d_online.State.Monad.{
  M, ◌>>=◌, ◌>>◌, and_then, pure, Returns, Returns-mono, Ensures,
}
use old_pixel_gun_3d_online.Cloud.{call_original}
use old_pixel_gun_3d_online.Photon.Observers.{View, Ready, Probes}
use old_pixel_gun_3d_online.Photon.Rules.{Observer}
use old_pixel_gun_3d_online.Photon.Wrappers.{Ends, Wraps, Keeps}
use old_pixel_gun_3d_online.Photon.Probes.Getters.{Observer-log_settings}
use old_pixel_gun_3d_online.Photon.Probes.Quiet.{
  Observer-current_server_settings, Observer-enable_verbose_photon_logs,
}
use old_pixel_gun_3d_online.Photon.Probes.{
  current_server_settings, enable_verbose_photon_logs, log_settings,
}
use old_pixel_gun_3d_online.Photon.Settings.{
  write_field, write_app_id, write_endpoint, write_mode, apply_config_to_settings,
}
use old_pixel_gun_3d_online.Photon.Hooks.{hook_set_up_photon}
use old_pixel_gun_3d_online.Photon.Statics.{ready_rules}

-- The view of the same game while PhotonNetwork need not be initialised.
abbrev pub before : {W : Type 0} → View W → View W
before V = record V { IsInitialized = ⊥ }

module _ {W : Type 0} {E : Env W} {V : View W} ⦃laws : Probes E V⦄ where
  Keeps-apply_config :
      (settings : Ptr) (point : String) → Keeps E V (apply_config_to_settings E settings point)
  unfolding apply_config_to_settings write_app_id write_endpoint write_mode write_field
  Keeps-apply_config settings point = search ready_rules depth 60

module _ {W A : Type 0} (E : Env W) (V : View W) ⦃laws : Probes E V⦄ where
  -- An observer behind a run, in which the run's result is dropped.
  dropped :
      (r : Option (A × State W)) (k : M W (Unit {0}))
      → Ensures r (λ _. Ready E V)
      → Observer E V k
      → Ends E V (and_then r (λ _. pure tt)) (and_then r (λ _. k))
  dropped none k keeps o = refl
  dropped (some (a, t)) k keeps o = Returns-mono _ _ (k t) (o.at t keeps) λ u t' q. (refl, q.0, q.1)

module _ {W : Type 0} (E : Env W) (V : View W) ⦃laws : Probes E V⦄ where
  -- The run from `t` is one configuration of the object that PhotonNetwork holds, up to what cannot be
  -- seen.
  abbrev pub Configures : State W → Option (Unit {0} × State W) → Type 0
  Configures = Wraps E V do
    settings ← current_server_settings E
    apply_config_to_settings E settings "SetUpPhoton/end"
    pure tt

  -- The run from `s` is one run of the original, and then, if it returns, one configuration.
  abbrev pub SetsUp : Option (Unit {0} × State W) → Option (Unit {0} × State W) → Type 0
  SetsUp none r = r ≡ none
  SetsUp (some (u, t)) r = Configures t r

  configured-Ends :
      (settings : Ptr) (v : State W)
      → Ready E V v
      → Ends E V ((apply_config_to_settings E settings "SetUpPhoton/end" >> pure tt) v) (
          (apply_config_to_settings E settings "SetUpPhoton/end"
              >> log_settings E "SetUpPhoton/end" settings)
            v)
  configured-Ends settings v r =
      dropped E V (apply_config_to_settings E settings "SetUpPhoton/end" v) _
        ((Keeps-apply_config settings "SetUpPhoton/end").at v r)
        (Observer-log_settings "SetUpPhoton/end" settings)

  found-Ends :
      (r : Option (Ptr × State W))
      → Returns r (λ _ v. Ready E V v)
      → Ends E V
          (and_then r λ settings. apply_config_to_settings E settings "SetUpPhoton/end" >> pure tt)
          (and_then r λ settings.
            apply_config_to_settings E settings "SetUpPhoton/end"
            >> log_settings E "SetUpPhoton/end" settings)
  found-Ends none q = absurd q
  found-Ends (some (settings, v)) q = configured-Ends settings v q

  after_original : M W (Unit {0})
  after_original = do
    enable_verbose_photon_logs E
    settings ← current_server_settings E
    apply_config_to_settings E settings "SetUpPhoton/end"
    log_settings E "SetUpPhoton/end" settings

  enabled-Configures :
      V.IsInitialized
      → (t : State W) (r : Option (Unit {0} × State W))
      → Returns r (λ _ u. V.Quiet t u × Ready E V u)
      → Configures t (
          and_then r λ _. current_server_settings E >>= λ settings.
          apply_config_to_settings E settings "SetUpPhoton/end"
          >> log_settings E "SetUpPhoton/end" settings)
  enabled-Configures up t none q = absurd q
  enabled-Configures up t (some (x, u)) q = (
    u,
    q.0,
    found-Ends (current_server_settings E u) (
        Returns-mono _ _ (current_server_settings E u)
          ((Observer-current_server_settings up).at u q.1) λ settings v h. h.1),
  )

  after-SetsUp :
      V.IsInitialized
      → (r : Option (Unit {0} × State W)) → Ensures r (λ _. Ready E V)
      → SetsUp r (and_then r (λ _. after_original))
  unfolding after_original
  after-SetsUp up none k = refl
  after-SetsUp up (some (x, t)) k =
      enabled-Configures up t (enable_verbose_photon_logs E t)
        ((Observer-enable_verbose_photon_logs up).at t k)

  -- Under the laws of the probes, for a view of an initialised PhotonNetwork, with sound statics, while
  -- PhotonNetwork need not be initialised yet, and if the original, where it returns, leaves it
  -- initialised and the statics sound: a call of `Switcher.SetUpPhoton` through its
  -- hook runs the original once with the same arguments, from a state that the game cannot tell from
  -- the present one, and faults if the original does. Otherwise the hook configures the settings
  -- object that PhotonNetwork holds, once and after the original: it ends like a run that reads the
  -- object and calls `apply_config_to_settings` on it, from a state that the game cannot tell from the
  -- one that the original has left, up to what it cannot see.
  pub hook_set_up_photon-SetsUp :
      V.IsInitialized
      → (settings method : Ptr) (s : State W) → Ready E (before V) s
      → ((s1 : State W)
          → Ready E (before V) s1
          → Ensures
              (call_original E E.invoke_void set_up_photon (ptr settings ∷ ptr method ∷ []) s1)
              (λ _. Ready E V))
      → (s1 : State W) × V.Quiet s s1
        × SetsUp
            (call_original E E.invoke_void set_up_photon (ptr settings ∷ ptr method ∷ []) s1)
            (hook_set_up_photon E settings method s)
  unfolding hook_set_up_photon after_original
  hook_set_up_photon-SetsUp up settings method s ready leaves =
      (begun, laws.quiet_log s _, after-SetsUp up (original begun) (leaves begun sound))
    where
      original : M W (Unit {0})
      original = call_original E E.invoke_void set_up_photon (ptr settings ∷ ptr method ∷ [])

      begun : State W
      begun = record s {
        log =
            record {
              level = info;
              text = "trace: Switcher.SetUpPhoton begin (HiddenSettings=%p)";
              args = nat settings ∷ [];
            }
            ∷ s.log;
      }

      sound : Ready E (before V) begun
      sound = record {
        state = ready.state;
        address = ready.address;
        auth = ready.auth;
        debug = ready.debug;
        level = ready.level;
        static_get = ready.static_get;
        static_set = ready.static_set;
        initialized = ready.initialized;
      }
