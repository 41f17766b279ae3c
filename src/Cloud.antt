-- ===== src/Cloud.antt =====
-- cloud_guard.h: the fixed Photon Cloud route, the gates in front of the game's connection entries,
-- and the quarantine of FriendsController.Update. A log call keeps the arguments that are numbers
-- or texts of the program; pointers are left out.
pub mod Settings
pub mod Force
pub mod Gates
pub mod Succeeds
pub mod Quarantine
pub mod Install
use Prim.Native.String.{String}
use old_pixel_gun_3d_online.Base.{
  ℕ, ◌+◌, ◌%◌, ◌^◌, Bool, true, false, not, ◌&&◌, ◌||◌, ◌==◌, leb, Option, none, some, List, [],
  ◌∷◌, Bytes, Ptr, null, is_null, ℤ, pos, int_eq, int_ge, minus_one, if◌then◌else◌,
}
use old_pixel_gun_3d_online.State.{
  Env, State, Hook, friends_update, connect_scene_go, connection_control_connect, game_connect_tier,
  game_connect_squad, Cloud, Arg, Value, ptr, num, str, int, nat, string_new, string_length,
  field_static_get_value,
}
use old_pixel_gun_3d_online.State.Monad.{
  M, ◌>>=◌, ◌>>◌, pure, fault, gets, reads, acts, branch, bound, through, touch_statics,
  modify_cloud, logi, logw, loge,
}
use old_pixel_gun_3d_online.Il2cpp.Metadata.{find_field, find_method_info, method_pointer}
use old_pixel_gun_3d_online.Il2cpp.Fields.{read_field, is_read, int_or, ptr_or}

-- `std::strlen(PHOTON_APP_ID) == 0u`
abbrev pub is_empty : Bytes → Bool
is_empty [] = true
is_empty (b ∷ bs) = false

-- `kPhotonCloudHost` and `kForcedRegionEu`
abbrev pub photon_cloud_host : ℕ
photon_cloud_host = 1

abbrev pub forced_region_eu : ℕ
forced_region_eu = 0

abbrev flag : Bool → Arg
flag true = int (pos 1)
flag false = int (pos 0)

abbrev pub u32 : ℕ → ℕ
u32 n = n % 2 ^ 32

-- `have_app && stored_app == app_id`
abbrev pub stored_same : Option Bytes → Ptr → Bool
stored_same stored app_id = is_read stored && ptr_or null stored == app_id

-- `const bool ready`
abbrev pub verdict : (host region stored : Option Bytes) → Ptr → Bool
verdict host region stored app_id =
    is_read host
    && int_eq (int_or minus_one host) photon_cloud_host
    && is_read region
    && int_eq (int_or minus_one region) forced_region_eu
    && stored_same stored app_id

unfoldable pub state_name : ℤ → String
state_name state =
    if int_eq state 0
    then "Uninitialized"
    else if int_eq state 1
    then "PeerCreated"
    else if int_eq state 2
    then "Queued"
    else if int_eq state 3
    then "Authenticated"
    else if int_eq state 4
    then "JoinedLobby"
    else if int_eq state 5
    then "DisconnectingFromMasterserver"
    else if int_eq state 6
    then "ConnectingToGameserver"
    else if int_eq state 7
    then "ConnectedToGameserver"
    else if int_eq state 8
    then "Joining"
    else if int_eq state 9
    then "Joined"
    else if int_eq state 10
    then "Leaving"
    else if int_eq state 11
    then "DisconnectingFromGameserver"
    else if int_eq state 12
    then "ConnectingToMasterserver"
    else if int_eq state 13
    then "QueuedComingFromGameserver"
    else if int_eq state 14
    then "Disconnecting"
    else if int_eq state 15
    then "Disconnected"
    else if int_eq state 16
    then "ConnectedToMaster"
    else if int_eq state 17
    then "ConnectingToNameServer"
    else if int_eq state 18
    then "ConnectedToNameServer"
    else if int_eq state 19
    then "DisconnectingFromNameServer"
    else if int_eq state 20
    then "Authenticating"
    else "unknown"

unfoldable pub should_quarantine_friends_update : ℤ → Bool
should_quarantine_friends_update state = int_ge state 2 && not (int_eq state 15)

module _ {W : Type 0} (E : Env W) where
  open E use {platform, invoke_void, invoke_bool, invoke_int}

  unfoldable pub current_server_settings : M W Ptr
  current_server_settings = do
    cached ← gets (λ s. s.cloud.settings_field)
    branch (is_null cached)
        (do
          found ← gets (find_field E "" "PhotonNetwork" "PhotonServerSettings")
          modify_cloud (λ c. record c { settings_field = found }))
        (pure tt)
    field ← gets (λ s. s.cloud.settings_field)
    readable ← gets (bound field_static_get_value)
    branch (is_null field || not readable) (pure null)
        (do touch_statics E; reads (platform.il2cpp_field_static_get_value field))

  unfoldable pub connection_state : M W ℤ
  connection_state = do
    cached ← gets (λ s. s.cloud.state_fn)
    branch (is_null cached)
        (do
          found ← gets (find_method_info E "" "PhotonNetwork" "get_connectionStateDetailed" 0)
          entry ← gets (method_pointer E found)
          modify_cloud (λ c. record c { state_method = found; state_fn = entry }))
        (pure tt)
    fn ← gets (λ s. s.cloud.state_fn)
    method ← gets (λ s. s.cloud.state_method)
    branch (not (is_null fn)) (invoke_int fn (ptr method ∷ [])) (pure minus_one)

  -- `il2cpp::string_new != nullptr ? il2cpp::string_new(PHOTON_APP_ID) : nullptr`
  unfoldable pub new_app_id : M W Ptr
  new_app_id = do
    there ← gets (bound string_new)
    branch there (acts (platform.il2cpp_string_new E.app_id)) (pure null)

  -- The statics `use_cloud_method` and `use_cloud`.
  unfoldable pub resolve_use_cloud : M W (Unit {0})
  resolve_use_cloud = do
    cached ← gets (λ s. s.cloud.use_cloud_fn)
    branch (is_null cached)
        (do
          found ← gets (find_method_info E "" "ServerSettings" "UseCloud" 2)
          entry ← gets (method_pointer E found)
          modify_cloud (λ c. record c { use_cloud_method = found; use_cloud_fn = entry }))
        (pure tt)

  -- From the count of the read-backs on.
  unfoldable pub report : String → (host region stored : Option Bytes) → Ptr → ℤ → M W Bool
  report point host region stored app_id chars = do
    modify_cloud (λ c. record c { cloud_apply_count = u32 (c.cloud_apply_count + 1) })
    apply ← gets (λ s. s.cloud.cloud_apply_count)
    let ready = verdict host region stored app_id
    modify_cloud (λ c. record c { cloud_ready = ready })
    logi
        "cloud-force[%s]: apply#%u sdk=1 host=%d(PhotonCloud expected=1) region=%d(eu expected=0) appChars=%d storedSame=%d ready=%d"
        (str point
          ∷ nat apply
          ∷ int (int_or minus_one host)
          ∷ int (int_or minus_one region)
          ∷ int chars
          ∷ flag (stored_same stored app_id)
          ∷ flag ready
          ∷ [])
    branch ready (pure tt) (
        loge "cloud-force[%s]: FAIL-CLOSED — PhotonCloud/eu route was not applied" (str point ∷ []))
    pure ready

  -- From the read-back of the settings on.
  unfoldable pub verify : String → Ptr → Ptr → M W Bool
  verify point settings app_id = do
    host ← read_field E 4 settings "HostType"
    region ← read_field E 4 settings "PreferredRegion"
    stored ← read_field E 4 settings "AppID"
    measured ← gets (bound string_length)
    chars ← branch measured (reads (platform.il2cpp_string_length app_id)) (pure minus_one)
    report point host region stored app_id chars

  -- From the call of UseCloud(appId, eu) on, its pointers resolved.
  unfoldable pub apply_route : String → Ptr → Ptr → M W Bool
  apply_route point settings app_id = do
    use_cloud ← gets (λ s. s.cloud.use_cloud_fn)
    method ← gets (λ s. s.cloud.use_cloud_method)
    branch (is_null use_cloud || is_null method)
        (do
          loge "cloud-force[%s]: UseCloud(appId, eu) unavailable; connection blocked"
              (str point ∷ [])
          modify_cloud (λ c. record c { cloud_ready = false })
          pure false)
        (do
          invoke_void use_cloud
              (ptr settings ∷ ptr app_id ∷ num (pos forced_region_eu) ∷ ptr method ∷ [])
          verify point settings app_id)

  -- The first log of a missing AppID: `g_missing_app_id_logged.exchange(true)`.
  unfoldable pub refuse_missing_app_id : String → M W Bool
  refuse_missing_app_id point = do
    logged ← gets (λ s. s.cloud.missing_app_id_logged)
    modify_cloud (λ c. record c { missing_app_id_logged = true })
    branch logged (pure tt)
        (loge "cloud-force[%s]: PHOTON_APP_ID is empty; refusing fake success" (str point ∷ []))
    pure false

  unfoldable pub force_cloud : String → Bool → M W Bool
  force_cloud point reapply = do
    was_ready ← gets (λ s. s.cloud.cloud_ready)
    branch E.selfhosted (pure true) (
        branch (not reapply && was_ready) (pure true) (
          branch (is_empty E.app_id) (refuse_missing_app_id point) (do
            settings ← current_server_settings
            branch (is_null settings)
                (do
                  logw "cloud-force[%s]: PhotonServerSettings is not ready" (str point ∷ [])
                  pure false)
                (do
                  app_id ← new_app_id
                  branch (is_null app_id)
                      (do
                        loge "cloud-force[%s]: il2cpp_string_new failed" (str point ∷ [])
                        pure false)
                      (do resolve_use_cloud; apply_route point settings app_id)))))

  -- A call of `g_...(args)`, a fault where that is null.
  abbrev pub call_original : {A : Type 0} → (Ptr → List Value → M W A) → Hook → List Value → M W A
  call_original invoke h args s =
      if is_null (s.originals h) then none else invoke (s.originals h) args s

  unfoldable pub hook_connect_scene_go : Ptr → Ptr → M W (Unit {0})
  hook_connect_scene_go self method = do
    forced ← force_cloud "ConnectScene.HandleGoBtnClicked" true
    branch (not forced) (loge "cloud-force: blocked ConnectScene.HandleGoBtnClicked" [])
        (call_original invoke_void connect_scene_go (ptr self ∷ ptr method ∷ []))

  unfoldable pub hook_connection_control_connect : Ptr → Ptr → M W (Unit {0})
  hook_connection_control_connect self method = do
    forced ← force_cloud "ConnectionControl.ConnectToPhoton" true
    branch (not forced) (loge "cloud-force: blocked ConnectionControl.ConnectToPhoton" [])
        (call_original invoke_void connection_control_connect (ptr self ∷ ptr method ∷ []))

  unfoldable pub hook_game_connect_tier : ℤ → Ptr → M W Bool
  hook_game_connect_tier tier method = do
    forced ← force_cloud "GameConnect.ConnectToPhoton(tier)" true
    branch (not forced) (pure false)
        (call_original invoke_bool game_connect_tier (num tier ∷ ptr method ∷ []))

  unfoldable pub hook_game_connect_squad : Ptr → M W Bool
  hook_game_connect_squad method = do
    forced ← force_cloud "GameConnect.ConnectToPhotonSquad" true
    branch (not forced) (pure false)
        (call_original invoke_bool game_connect_squad (ptr method ∷ []))

  unfoldable pub hook_friends_update : Ptr → Ptr → M W (Unit {0})
  hook_friends_update self method = do
    state ← connection_state
    branch (should_quarantine_friends_update state)
        (do
          modify_cloud (λ c. record c { quarantined_updates = u32 (c.quarantined_updates + 1) })
          count ← gets (λ s. s.cloud.quarantined_updates)
          branch (leb count 8 || count % 120 == 0)
              (logw
                "backend-guard: skipped FriendsController.Update #%u state=%d(%s); blocks proven Disconnect call site +0x310"
                (nat count ∷ int state ∷ str (state_name state) ∷ []))
              (pure tt))
        (call_original invoke_void friends_update (ptr self ∷ ptr method ∷ []))
