-- ===== src/Photon/Probes/Quiet.antt =====
-- The verbose log of Photon and the settings object: reading and switching leave the game alone.
use old_pixel_gun_3d_online.Base.{
  ◌≡◌, inl, inr, true, false, not, ◌&&◌, Ptr, is_null, arith, Bool-cases,
}
use old_pixel_gun_3d_online.State.{Env, field_static_get_value}
use old_pixel_gun_3d_online.State.Monad.{through, touch_statics, modify_photon}
use old_pixel_gun_3d_online.Photon.Observers.{View, Probes}
use old_pixel_gun_3d_online.Photon.Rules.{Observer, both, followed, Observer-then, observer_rules}
use old_pixel_gun_3d_online.Photon.Probes.{
  current_server_settings, set_log_level, networking_peer, set_debug_out,
  enable_verbose_photon_logs,
}
use old_pixel_gun_3d_online.Photon.Probes.Getters.{Observer-cache_method, Observer-cache_field}

second_set : (p q : Ptr) → not (is_null p) && not (is_null q) ≡ true → is_null q ≡ false
second_set p q h = ground arith

module _ {W : Type 0} {E : Env W} {V : View W} ⦃laws : Probes E V⦄ where
  Observer-through_get : Observer E V (through field_static_get_value)
  Observer-through_get = record { at = λ s r. rw r.static_get (laws.quiet_refl s, r) }

  Observer-touch : V.IsInitialized → Observer E V (touch_statics E)
  Observer-touch up = record { at = λ s r. rw (r.initialized up) (laws.quiet_refl s, r) }

  pub Observer-current_server_settings : V.IsInitialized → Observer E V (current_server_settings E)
  unfolding current_server_settings
  Observer-current_server_settings up =
      Observer-then _ _
        (Observer-cache_field {V = V} (λ p. p.settings_field) _ "PhotonServerSettings"
          λ s r. record {
            state = r.state;
            address = r.address;
            auth = r.auth;
            debug = r.debug;
            level = r.level;
            static_get = r.static_get;
            static_set = r.static_set;
            initialized = r.initialized;
          })
        (search (observer_rules, Observer-through_get, Observer-touch, up) depth 20)

  Observer-networking_peer : V.IsInitialized → Observer E V (networking_peer E)
  unfolding networking_peer
  Observer-networking_peer up =
      Observer-then _ _
        (Observer-cache_field {V = V} (λ p. p.peer_field) _ "networkingPeer"
          λ s r. record {
            state = r.state;
            address = r.address;
            auth = r.auth;
            debug = r.debug;
            level = r.level;
            static_get = r.static_get;
            static_set = r.static_set;
            initialized = r.initialized;
          })
        (search (observer_rules, Observer-through_get, Observer-touch, up) depth 20)

  Observer-set_log_level : V.IsInitialized → Observer E V (set_log_level E)
  unfolding set_log_level
  Observer-set_log_level up =
      Observer-then _ _
        (Observer-cache_field {V = V} (λ p. p.log_level_field) _ "logLevel"
          λ s r. record {
            state = r.state;
            address = r.address;
            auth = r.auth;
            debug = r.debug;
            level = λ _. laws.level_found s;
            static_get = r.static_get;
            static_set = r.static_set;
            initialized = r.initialized;
          })
        (record {
          at = λ s r. elim (Bool-cases (is_null s.photon.log_level_field)) [
            | inl missing ↦ rw missing (laws.quiet_refl s, r)
            | inr there ↦
                rw (there, r.static_set, r.initialized up)
                  (
                    laws.quiet_level s _ (r.level there) there,
                    record {
                      state = r.state;
                      address = r.address;
                      auth = r.auth;
                      debug = r.debug;
                      level = r.level;
                      static_get = r.static_get;
                      static_set = r.static_set;
                      initialized =
                          λ up. laws.stays.static_set_stays _ _ s.world (r.initialized up);
                    },
                  )
          ];
        })

  Observer-verbose_ready : Observer E V (modify_photon (λ p. record p { verbose_ready = true }))
  Observer-verbose_ready = record {
    at = λ s r. (
      laws.quiet_photon s _,
      record {
        state = r.state;
        address = r.address;
        auth = r.auth;
        debug = r.debug;
        level = r.level;
        static_get = r.static_get;
        static_set = r.static_set;
        initialized = r.initialized;
      },
    );
  }

  Observer-set_debug_out : (peer : Ptr) → Observer E V (set_debug_out E peer)
  unfolding set_debug_out
  Observer-set_debug_out peer =
      Observer-then _ _
        (Observer-cache_method {V = V} (λ p. p.set_debug_fn) _ "ExitGames.Client.Photon"
          "PhotonPeer" "set_DebugOut" 1
          λ s r. record {
            state = r.state;
            address = r.address;
            auth = r.auth;
            debug = λ _. laws.debug_found s;
            level = r.level;
            static_get = r.static_get;
            static_set = r.static_set;
            initialized = r.initialized;
          })
        (record {
          at = λ s r.
              elim (Bool-cases (not (is_null peer) && not (is_null s.photon.set_debug_fn))) [
                | inr skipped ↦ rw skipped (laws.quiet_refl s, r)
                | inl called ↦ rw called (
                    followed E V s _ _
                      (both E V s _
                        (laws.probe_void _ _ s (r.debug (second_set _ _ called))
                          (second_set _ _ called))
                        (laws.keeps_void _ _ s r))
                      (λ u. search (observer_rules, Observer-verbose_ready) depth 20))
              ];
        })

  pub Observer-enable_verbose_photon_logs :
      V.IsInitialized → Observer E V (enable_verbose_photon_logs E)
  unfolding enable_verbose_photon_logs
  Observer-enable_verbose_photon_logs up =
      search
        (
          observer_rules, Observer-set_log_level, Observer-networking_peer, Observer-set_debug_out,
          up,
        )
        depth 20
