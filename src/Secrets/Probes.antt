-- ===== src/Secrets/Probes.antt =====
-- The probes of photon_hooks.cpp run alike in both processes.
use Prim.Native.String.{String}
use old_pixel_gun_3d_online.Base.{
  ℕ, ◌≡◌, refl, sym, Bool, true, Option, none, some, List, Bytes, Ptr, null, is_null, not,
  Option-cases, inl, inr, ◌∙◌, false, arith,
}
use old_pixel_gun_3d_online.State.{Env, State, Photon, Value}
use old_pixel_gun_3d_online.State.Monad.{M, ◌>>=◌, gets, modify_photon, Ensures, Ensures-mono}
use old_pixel_gun_3d_online.Il2cpp.Metadata.{find_method_info, method_pointer}
use old_pixel_gun_3d_online.Il2cpp.Fields.{
  read_field, field_bytes, ptr_or, le_value, read_field-fault, read_field-some,
}
use old_pixel_gun_3d_online.Photon.Probes.{
  cache_method, cache_field, current_server_settings, connection_state, server_address,
  secret_length, log_auth_fields, log_auth_snapshot, set_log_level, networking_peer, set_debug_out,
  enable_verbose_photon_logs, log_settings,
}
use old_pixel_gun_3d_online.Secrets.{Secrets, Shown, Twins}
use old_pixel_gun_3d_online.Secrets.Reads.{
  find_method_info-same, method_pointer-same, find_field-same, field_bytes-same, to_utf8-same,
  secret_summary-same,
}
use old_pixel_gun_3d_online.Secrets.Rules.{
  Blind, Blind-touch, Blind-known, Blind-gets, blind_rules, Blind-invoke_void, Blind-invoke_ptr,
  Blind-invoke_int,
}

negated : (b : Bool) → not b ≡ true → b ≡ false
negated true e = sym e
negated false e = refl

module _ {W : Type 0} (E F : Env W) (V : Secrets W) ⦃twins : Twins E F V⦄ where
  pub Blind-cache_method :
      (fn : Photon → Ptr) (put : Ptr → Ptr → Photon → Photon) (namespaze klass method : String)
      (count : ℕ)
      → ((found entry : Ptr) (p : Photon) → (put found entry p).address_fn ≡ p.address_fn)
      → Blind V
          (cache_method E fn put namespaze klass method count)
          (cache_method F fn put namespaze klass method count)
  unfolding cache_method
  Blind-cache_method fn put namespaze klass method count keeps =
      search (blind_rules, find_method_info-same E F V, method_pointer-same E F V) depth 40

  pub Blind-cache_field :
      (get : Photon → Ptr) (put : Ptr → Photon → Photon) (name : String)
      → ((found : Ptr) (p : Photon) → (put found p).address_fn ≡ p.address_fn)
      → Blind V (cache_field E get put name) (cache_field F get put name)
  unfolding cache_field
  Blind-cache_field get put name keeps = search (blind_rules, find_field-same E F V) depth 40

  -- The address getter as it is looked up.
  Blind-found_address :
      Blind V
        (do
          found ← gets (find_method_info E "" "PhotonNetwork" "get_ServerAddress" 0)
          entry ← gets (method_pointer E found)
          modify_photon (λ p. record p { address_method = found; address_fn = entry }))
        (do
          found ← gets (find_method_info F "" "PhotonNetwork" "get_ServerAddress" 0)
          entry ← gets (method_pointer F found)
          modify_photon (λ p. record p { address_method = found; address_fn = entry }))
  Blind-found_address = record {
    at = λ s u l p.
        let same = find_method_info-same E F V "" "PhotonNetwork" "get_ServerAddress" 0 s u l in
        rw (same, method_pointer-same E F V _ s u l)
          (u, refl, l, record { address = λ there. twins.getter_found s; version = p.version });
  }

  pub Blind-current_server_settings :
      Blind V (current_server_settings E) (current_server_settings F)
  unfolding current_server_settings
  Blind-current_server_settings =
      search (blind_rules, Blind-touch E F V, Blind-cache_field, twins.same_static) depth 40

  pub Blind-connection_state : Blind V (connection_state E) (connection_state F)
  unfolding connection_state
  Blind-connection_state = search (blind_rules, Blind-cache_method, Blind-invoke_int E F V) depth 40

  pub Blind-read_field :
      (size : ℕ) (object : Ptr) (name : String)
      → Blind V (read_field E size object name) (read_field F size object name)
  Blind-read_field size object name = record {
    at = λ s u l p. elim (Option-cases (field_bytes E size object name s.slots s.world)) [
      | inl fault ↦ rw (read_field-fault E size object name s fault) (
          read_field-fault F size object name (record s { world = u })
            (field_bytes-same E F V size object name s.slots s.world u l ∙ fault))
      | inr (read, e) ↦ rw (read_field-some E size object name s e) (
        u,
        read_field-some F size object name (record s { world = u })
            (field_bytes-same E F V size object name s.slots s.world u l ∙ e),
        l,
        p,
      )
    ];
  }

  known_field :
      (object : Ptr) (name : String) (s : State W)
      → ((read : Bytes)
          → field_bytes E 4 object name s.slots s.world ≡ some (some read)
          → ¬ V.IsSecret (le_value read))
      → Ensures (read_field E 4 object name s) (λ read _. Shown V (ptr_or null read))
  known_field object name s public =
      elim (Option-cases (field_bytes E 4 object name s.slots s.world)) [
        | inl fault ↦ rw (read_field-fault E 4 object name s fault) tt
        | inr (none, e) ↦ rw (read_field-some E 4 object name s e) λ z. absurd (ground arith)
        | inr (some read, e) ↦ rw (read_field-some E 4 object name s e) λ z. public read e
      ]

module _ {W A : Type 0} (E F : Env W) (V : Secrets W) ⦃twins : Twins E F V⦄ where
  -- What a getter returns may stand in the log.
  pub Blind-getter :
      (fn : Ptr) (args : List Value) (k k' : Ptr → M W A)
      → V.IsGetter fn
      → ((string : Ptr) → Shown V string → Blind V (k string) (k' string))
      → Blind V (E.invoke_ptr fn args >>= k) (F.invoke_ptr fn args >>= k')
  Blind-getter fn args k k' getter rest =
      Blind-known (Shown V) _ _ k k' (Blind-invoke_ptr E F V fn args)
        (λ s p.
          Ensures-mono _ _ (E.invoke_ptr fn args s) (twins.getter_public fn args s getter)
            λ string t public z. public)
        rest

  Blind-address_fn :
      (k k' : Ptr → M W A)
      → ((fn : Ptr) → (is_null fn ≡ false → V.IsGetter fn) → Blind V (k fn) (k' fn))
      → Blind V (gets (λ s. s.photon.address_fn) >>= k) (gets (λ s. s.photon.address_fn) >>= k')
  Blind-address_fn k k' rest =
      Blind-known (λ fn. is_null fn ≡ false → V.IsGetter fn) _ _ k k'
        (Blind-gets (λ s. s.photon.address_fn) (λ s. s.photon.address_fn) (λ s u l. refl))
        (λ s p. p.address) rest

  -- The texts of these two fields may stand in the log.
  pub Blind-address_field :
      (object : Ptr) (k k' : Option Bytes → M W A)
      → ((read : Option Bytes) → Shown V (ptr_or null read) → Blind V (k read) (k' read))
      → Blind V
          (read_field E 4 object "ServerAddress" >>= k)
          (read_field F 4 object "ServerAddress" >>= k')
  Blind-address_field object k k' rest =
      Blind-known (λ read. Shown V (ptr_or null read)) _ _ k k'
        (Blind-read_field E F V 4 object "ServerAddress")
        (λ s p.
          known_field E F V object "ServerAddress" s (λ read e. twins.address_public object s e))
        rest

  pub Blind-message_field :
      (object : Ptr) (k k' : Option Bytes → M W A)
      → ((read : Option Bytes) → Shown V (ptr_or null read) → Blind V (k read) (k' read))
      → Blind V
          (read_field E 4 object "DebugMessage" >>= k)
          (read_field F 4 object "DebugMessage" >>= k')
  Blind-message_field object k k' rest =
      Blind-known (λ read. Shown V (ptr_or null read)) _ _ k k'
        (Blind-read_field E F V 4 object "DebugMessage")
        (λ s p.
          known_field E F V object "DebugMessage" s (λ read e. twins.message_public object s e))
        rest

module _ {W : Type 0} (E F : Env W) (V : Secrets W) ⦃twins : Twins E F V⦄ where
  pub Blind-cache_address :
      Blind V
        (cache_method E
          (λ p. p.address_fn)
          (λ found entry p. record p { address_method = found; address_fn = entry })
          ""
          "PhotonNetwork"
          "get_ServerAddress"
          0)
        (cache_method F
          (λ p. p.address_fn)
          (λ found entry p. record p { address_method = found; address_fn = entry })
          ""
          "PhotonNetwork"
          "get_ServerAddress"
          0)
  unfolding cache_method
  Blind-cache_address = search (blind_rules, Blind-found_address E F V) depth 40

  pub Blind-server_address : Blind V (server_address E) (server_address F)
  unfolding server_address
  Blind-server_address =
      search
        (
          Blind-address_fn E F V,
          Blind-getter E F V,
          blind_rules,
          Blind-cache_address,
          to_utf8-same E F V,
          negated,
        )
        depth 40

  pub Blind-secret_length :
      (read : Option Bytes) → Blind V (secret_length E read) (secret_length F read)
  unfolding secret_length
  Blind-secret_length read = search (blind_rules, twins.same_length) depth 40

  Blind-log_auth_fields :
      (point : String) (auth : Ptr)
      → Blind V (log_auth_fields E point auth) (log_auth_fields F point auth)
  unfolding log_auth_fields
  Blind-log_auth_fields point auth =
      search (blind_rules, Blind-read_field E F V, Blind-secret_length) depth 60

  pub Blind-log_auth_snapshot :
      (point : String) → Blind V (log_auth_snapshot E point) (log_auth_snapshot F point)
  unfolding log_auth_snapshot
  Blind-log_auth_snapshot point =
      search (blind_rules, Blind-cache_method E F V, Blind-invoke_ptr E F V, Blind-log_auth_fields)
        depth 60

  pub Blind-enable_verbose_photon_logs :
      Blind V (enable_verbose_photon_logs E) (enable_verbose_photon_logs F)
  unfolding enable_verbose_photon_logs set_log_level networking_peer set_debug_out
  Blind-enable_verbose_photon_logs =
      search
        (
          blind_rules,
          Blind-cache_method E F V,
          Blind-cache_field E F V,
          Blind-invoke_void E F V,
          twins.same_static,
          twins.same_static_set,
          Blind-touch E F V,
        )
        depth 60

  pub Blind-log_settings :
      (point : String) (settings : Ptr)
      → Blind V (log_settings E point settings) (log_settings F point settings)
  unfolding log_settings
  Blind-log_settings point settings =
      search
        (
          Blind-address_field E F V,
          blind_rules,
          Blind-read_field E F V,
          to_utf8-same E F V,
          secret_summary-same E F V,
        )
        depth 60
