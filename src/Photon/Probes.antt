-- ===== src/Photon/Probes.antt =====
-- What photon_hooks.cpp reads of the game for its log lines, each getter cached in a function-local
-- static: PhotonNetwork's settings, connection state, server address and AuthValues; and the switch
-- of PUN to verbose logging.
pub mod Getters
pub mod Quiet
use Prim.Native.String.{String}
use old_pixel_gun_3d_online.Base.{
  ℕ, Bool, true, false, not, ◌&&◌, ◌||◌, ◌==◌, Option, none, some, List, [], ◌∷◌, ◌++◌, Bytes,
  codes, Ptr, null, is_null, ℤ, pos, minus_one, if◌then◌else◌,
}
use old_pixel_gun_3d_online.State.{
  Env, State, Photon, Arg, str, bytes, int, nat, ptr, num, string_length, field_static_get_value,
  field_static_set_value,
}
use old_pixel_gun_3d_online.State.Monad.{
  M, ◌>>=◌, ◌>>◌, pure, gets, reads, changes, branch, bound, through, touch_statics, modify_photon,
  logi, logw,
}
use old_pixel_gun_3d_online.Il2cpp.Metadata.{find_field, find_method_info, method_pointer}
use old_pixel_gun_3d_online.Il2cpp.Fields.{read_field, is_read, int_or, ptr_or, le_value}
use old_pixel_gun_3d_online.Il2cpp.Fields.Values.{le_bytes}
use old_pixel_gun_3d_online.Il2cpp.Strings.{to_utf8}
use old_pixel_gun_3d_online.Photon.{secret_summary}
use old_pixel_gun_3d_online.Photon.Names.{hosting_name, protocol_name}

abbrev pub flag : Bool → Arg
flag true = int (pos 1)
flag false = int (pos 0)

-- A `bool` variable that keeps `false` where nothing was read.
abbrev bool_or_false : Option Bytes → Bool
bool_or_false none = false
bool_or_false (some read) = not (le_value read == 0)

abbrev set_or_null : Ptr → Arg
set_or_null p = str (if is_null p then "null" else "set")

-- `flag ? "" : "?"`
abbrev pub mark : Bool → Arg
mark b = str (if b then "" else "?")

module _ {W : Type 0} (E : Env W) where
  open E use {platform, invoke_void, invoke_ptr, invoke_int}

  -- `if (fn == nullptr) { method = find_method_info(...); fn = method_pointer(method); }`, where `fn`
  -- reads the static and `put` writes both.
  unfoldable pub cache_method :
      (Photon → Ptr) → (Ptr → Ptr → Photon → Photon) → String → String → String → ℕ → M W (Unit {0})
  cache_method fn put namespaze klass method args_count = do
    cached ← gets (λ s. fn s.photon)
    branch (is_null cached)
        (do
          found ← gets (find_method_info E namespaze klass method args_count)
          entry ← gets (method_pointer E found)
          modify_photon (put found entry))
        (pure tt)

  -- The same for a static field of PhotonNetwork.
  unfoldable pub cache_field : (Photon → Ptr) → (Ptr → Photon → Photon) → String → M W (Unit {0})
  cache_field get put name = do
    cached ← gets (λ s. get s.photon)
    branch (is_null cached)
        (do found ← gets (find_field E "" "PhotonNetwork" name); modify_photon (put found))
        (pure tt)

  unfoldable pub current_server_settings : M W Ptr
  current_server_settings = do
    cache_field (λ p. p.settings_field) (λ found p. record p { settings_field = found })
        "PhotonServerSettings"
    field ← gets (λ s. s.photon.settings_field)
    branch (is_null field) (pure null) (do
      through field_static_get_value
      touch_statics E
      reads (platform.il2cpp_field_static_get_value field))

  unfoldable pub connection_state : M W ℤ
  connection_state = do
    cache_method (λ p. p.state_fn)
        (λ found entry p. record p { state_method = found; state_fn = entry }) "" "PhotonNetwork"
        "get_connectionStateDetailed" 0
    fn ← gets (λ s. s.photon.state_fn)
    method ← gets (λ s. s.photon.state_method)
    branch (not (is_null fn)) (invoke_int fn (ptr method ∷ [])) (pure minus_one)

  unfoldable pub server_address : M W Bytes
  server_address = do
    cache_method (λ p. p.address_fn)
        (λ found entry p. record p { address_method = found; address_fn = entry }) ""
        "PhotonNetwork" "get_ServerAddress" 0
    fn ← gets (λ s. s.photon.address_fn)
    method ← gets (λ s. s.photon.address_method)
    branch (not (is_null fn))
        (do address ← invoke_ptr fn (ptr method ∷ []); gets (to_utf8 E address 256))
        (pure (codes "<unavailable>"))

  -- The length of a secret that was read, 0 where there is none.
  unfoldable pub secret_length : Option Bytes → M W ℤ
  secret_length read = do
    measured ← gets (bound string_length)
    branch (is_read read && not (is_null (ptr_or null read)) && measured)
        (reads (platform.il2cpp_string_length (ptr_or null read))) (pure (pos 0))

  -- From the read of the fields on.
  unfoldable pub log_auth_fields : String → Ptr → M W (Unit {0})
  log_auth_fields point auth = do
    type ← read_field E 4 auth "authType"
    token ← read_field E 4 auth "token"
    user_id ← read_field E 4 auth "userId"
    token_len ← secret_length token
    user_len ← secret_length user_id
    logi "auth[%s]: object=%p type=%s%d token=%s(len=%d) userId=%s(len=%d)" (
        str point
        ∷ nat auth
        ∷ mark (is_read type)
        ∷ int (int_or minus_one type)
        ∷ set_or_null (ptr_or null token)
        ∷ int token_len
        ∷ set_or_null (ptr_or null user_id)
        ∷ int user_len
        ∷ [])

  unfoldable pub log_auth_snapshot : String → M W (Unit {0})
  log_auth_snapshot point = do
    cache_method (λ p. p.auth_fn)
        (λ found entry p. record p { auth_method = found; auth_fn = entry }) "" "PhotonNetwork"
        "get_AuthValues" 0
    fn ← gets (λ s. s.photon.auth_fn)
    method ← gets (λ s. s.photon.auth_method)
    branch (is_null fn) (logw "auth[%s]: getter unavailable" (str point ∷ [])) (do
      auth ← invoke_ptr fn (ptr method ∷ [])
      branch (is_null auth) (logi "auth[%s]: <null>" (str point ∷ [])) (log_auth_fields point auth))

  -- PhotonLogLevel.Full
  unfoldable pub set_log_level : M W (Unit {0})
  set_log_level = do
    cache_field (λ p. p.log_level_field) (λ found p. record p { log_level_field = found })
        "logLevel"
    field ← gets (λ s. s.photon.log_level_field)
    branch (not (is_null field))
        (do
          through field_static_set_value
          touch_statics E
          changes (platform.il2cpp_field_static_set_value field (le_bytes 4 2)))
        (pure tt)

  -- The static `networkingPeer`, null where it cannot be read.
  unfoldable pub networking_peer : M W Ptr
  networking_peer = do
    cache_field (λ p. p.peer_field) (λ found p. record p { peer_field = found }) "networkingPeer"
    field ← gets (λ s. s.photon.peer_field)
    branch (not (is_null field))
        (do
          through field_static_get_value
          touch_statics E
          reads (platform.il2cpp_field_static_get_value field))
        (pure null)

  -- DebugLevel.ALL for the peer, with one line in the log the first time.
  unfoldable pub set_debug_out : Ptr → M W (Unit {0})
  set_debug_out peer = do
    cache_method (λ p. p.set_debug_fn)
        (λ found entry p. record p { set_debug_method = found; set_debug_fn = entry })
        "ExitGames.Client.Photon" "PhotonPeer" "set_DebugOut" 1
    set_debug ← gets (λ s. s.photon.set_debug_fn)
    method ← gets (λ s. s.photon.set_debug_method)
    branch (not (is_null peer) && not (is_null set_debug))
        (do
          invoke_void set_debug (ptr peer ∷ num (pos 5) ∷ ptr method ∷ [])
          ready ← gets (λ s. s.photon.verbose_ready)
          modify_photon (λ p. record p { verbose_ready = true })
          branch (not ready) (logi "trace: PhotonLogLevel=Full, PhotonPeer.DebugOut=ALL" [])
              (pure tt))
        (pure tt)

  unfoldable pub enable_verbose_photon_logs : M W (Unit {0})
  enable_verbose_photon_logs = do set_log_level; peer ← networking_peer; set_debug_out peer

  unfoldable pub log_settings : String → Ptr → M W (Unit {0})
  log_settings point settings =
      branch (is_null settings) (logw "settings[%s]: <null>" (str point ∷ [])) (do
        host ← read_field E 4 settings "HostType"
        protocol ← read_field E 4 settings "Protocol"
        address ← read_field E 4 settings "ServerAddress"
        port ← read_field E 4 settings "ServerPort"
        app_id ← read_field E 4 settings "AppID"
        region ← read_field E 4 settings "PreferredRegion"
        regions ← read_field E 4 settings "EnabledRegions"
        join_lobby ← read_field E 1 settings "JoinLobby"
        lobby_stats ← read_field E 1 settings "EnableLobbyStatistics"
        server ← gets (to_utf8 E (ptr_or null address) 256)
        app ← gets (secret_summary E (ptr_or null app_id))
        logi
            "settings[%s]: host=%d(%s) protocol=%d(%s) server='%s':%d app={%s} region=%d enabled=0x%x joinLobby=%d lobbyStats=%d"
            (str point
              ∷ int (int_or minus_one host)
              ∷ str (hosting_name (int_or minus_one host))
              ∷ int (int_or minus_one protocol)
              ∷ str (protocol_name (int_or minus_one protocol))
              ∷ bytes server
              ∷ int (int_or minus_one port)
              ∷ (app
                  ++ int (int_or minus_one region)
                    ∷ int (int_or minus_one regions)
                    ∷ flag (bool_or_false join_lobby)
                    ∷ flag (bool_or_false lobby_stats)
                    ∷ [])))
