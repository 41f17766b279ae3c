-- ===== src/Photon/Probes/Getters.antt =====
-- The getters that photon_hooks.cpp probes return and leave the game alone, and so does what it
-- writes to the log of what they give.
use Prim.Native.String.{String}
use old_pixel_gun_3d_online.Base.{ℕ, inl, inr, Bytes, Ptr, is_null, Option, Bool-cases}
use old_pixel_gun_3d_online.State.{Env, State, Photon}
use old_pixel_gun_3d_online.Il2cpp.Metadata.{find_field, find_method_info, method_pointer}
use old_pixel_gun_3d_online.Photon.Observers.{View, Ready, Probes}
use old_pixel_gun_3d_online.Photon.Rules.{
  Observer, both, followed, Observer-then, Observer-logw, observer_rules,
}
use old_pixel_gun_3d_online.Photon.Probes.{
  cache_method, cache_field, connection_state, server_address, secret_length, log_auth_fields,
  log_auth_snapshot, log_settings,
}

module _ {W : Type 0} {E : Env W} {V : View W} ⦃laws : Probes E V⦄ where
  Observer-secret_length : (read : Option Bytes) → Observer E V (secret_length E read)
  unfolding secret_length
  Observer-secret_length read = search observer_rules depth 40

  Observer-log_auth_fields :
      (point : String) (auth : Ptr) → Observer E V (log_auth_fields E point auth)
  unfolding log_auth_fields
  Observer-log_auth_fields point auth = search (observer_rules, Observer-secret_length) depth 40

  pub Observer-log_settings :
      (point : String) (settings : Ptr) → Observer E V (log_settings E point settings)
  unfolding log_settings
  Observer-log_settings point settings = search observer_rules depth 40

  pub Observer-cache_method :
      (fn : Photon → Ptr) (put : Ptr → Ptr → Photon → Photon) (namespaze klass method : String)
      (n : ℕ)
      → ((s : State W)
          → Ready E V s
          → let found = find_method_info E namespaze klass method n s in
            Ready E V (record s { photon = put found (method_pointer E found s) s.photon }))
      → Observer E V (cache_method E fn put namespaze klass method n)
  unfolding cache_method
  Observer-cache_method fn put namespaze klass method n ok = record {
    at = λ s r. elim (Bool-cases (is_null (fn s.photon))) [
      | inl fresh ↦ rw fresh (laws.quiet_photon s _, ok s r)
      | inr cached ↦ rw cached (laws.quiet_refl s, r)
    ];
  }

  pub Observer-cache_field :
      (get : Photon → Ptr) (put : Ptr → Photon → Photon) (name : String)
      → ((s : State W)
          → Ready E V s
          → Ready E V (record s { photon = put (find_field E "" "PhotonNetwork" name s) s.photon }))
      → Observer E V (cache_field E get put name)
  unfolding cache_field
  Observer-cache_field get put name ok = record {
    at = λ s r. elim (Bool-cases (is_null (get s.photon))) [
      | inl fresh ↦ rw fresh (laws.quiet_photon s _, ok s r)
      | inr cached ↦ rw cached (laws.quiet_refl s, r)
    ];
  }

  pub Observer-connection_state : Observer E V (connection_state E)
  unfolding connection_state
  Observer-connection_state =
      Observer-then _ _
        (Observer-cache_method (λ p. p.state_fn) _ "" "PhotonNetwork" "get_connectionStateDetailed"
          0
          λ s r. record {
            state = λ _. laws.state_found s;
            address = r.address;
            auth = r.auth;
            debug = r.debug;
            level = r.level;
            static_get = r.static_get;
            static_set = r.static_set;
            initialized = r.initialized;
          })
        (record {
          at = λ s r. elim (Bool-cases (is_null s.photon.state_fn)) [
            | inl missing ↦ rw missing (laws.quiet_refl s, r)
            | inr there ↦
                rw there (
                  both E V s _ (laws.probe_int _ _ s (r.state there) there)
                    (laws.keeps_int _ _ s r))
          ];
        })

  pub Observer-server_address : Observer E V (server_address E)
  unfolding server_address
  Observer-server_address =
      Observer-then _ _
        (Observer-cache_method (λ p. p.address_fn) _ "" "PhotonNetwork" "get_ServerAddress" 0
          λ s r. record {
            state = r.state;
            address = λ _. laws.address_found s;
            auth = r.auth;
            debug = r.debug;
            level = r.level;
            static_get = r.static_get;
            static_set = r.static_set;
            initialized = r.initialized;
          })
        (record {
          at = λ s r. elim (Bool-cases (is_null s.photon.address_fn)) [
            | inl missing ↦ rw missing (laws.quiet_refl s, r)
            | inr there ↦ rw there (
                followed E V s _ _
                  (both E V s _ (laws.probe_ptr _ _ s (r.address there) there)
                    (laws.keeps_ptr _ _ s r))
                  (λ address. search observer_rules))
          ];
        })

  pub Observer-log_auth_snapshot : (point : String) → Observer E V (log_auth_snapshot E point)
  unfolding log_auth_snapshot
  Observer-log_auth_snapshot point =
      Observer-then _ _
        (Observer-cache_method (λ p. p.auth_fn) _ "" "PhotonNetwork" "get_AuthValues" 0
          λ s r. record {
            state = r.state;
            address = r.address;
            auth = λ _. laws.auth_found s;
            debug = r.debug;
            level = r.level;
            static_get = r.static_get;
            static_set = r.static_set;
            initialized = r.initialized;
          })
        (record {
          at = λ s r. elim (Bool-cases (is_null s.photon.auth_fn)) [
            | inl missing ↦ rw missing ((Observer-logw _ _).at s r)
            | inr there ↦ rw there (
                followed E V s _ _
                  (both E V s _ (laws.probe_ptr _ _ s (r.auth there) there)
                    (laws.keeps_ptr _ _ s r))
                  (λ auth. search (observer_rules, Observer-log_auth_fields)))
          ];
        })
