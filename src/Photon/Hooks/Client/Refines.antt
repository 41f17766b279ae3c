-- ===== src/Photon/Hooks/Client/Refines.antt =====
-- No client of the traced entries can tell the hooks from their originals.
use old_pixel_gun_3d_online.Base.{
  ◌≡◌, refl, sym, ap, ◌∙◌, subst, inl, inr, Option, none, some, List, [], ◌∷◌, Ptr, is_null,
  Bool-cases,
}
use old_pixel_gun_3d_online.State.{
  Env, State, Hook, Value, ptr, num, use_cloud, use_cloud_best, use_cloud_region, use_my_server,
  connect_using_settings, connect_to_master, get_game_version, game_connect, disconnect,
  debug_return, on_status_changed, on_operation_response, failed_to_connect, disconnected,
  connected_to_master,
}
use old_pixel_gun_3d_online.State.Monad.{M, and_then, Returns}
use old_pixel_gun_3d_online.Cloud.{call_original}
use old_pixel_gun_3d_online.Photon.Observers.{View, Ready, Probes}
use old_pixel_gun_3d_online.Photon.Wrappers.{Wrapper, Wraps, Ends}
use old_pixel_gun_3d_online.Photon.Hooks.Wrapped.{
  Wrapper-hook_use_cloud, Wrapper-hook_use_cloud_best, Wrapper-hook_use_cloud_region,
  Wrapper-hook_use_my_server, Wrapper-hook_connect_using_settings, Wrapper-hook_connect_to_master,
  Wrapper-hook_get_game_version, Wrapper-hook_game_connect, Wrapper-hook_disconnect,
  Wrapper-hook_debug_return, Wrapper-hook_on_status_changed, Wrapper-hook_on_operation_response,
  Wrapper-hook_failed_to_connect, Wrapper-hook_disconnected, Wrapper-hook_connected_to_master,
}
use old_pixel_gun_3d_online.Photon.Hooks.Client.{
  Call, Allowed, AllAllowed, Client, finish, ask, hooked, original, run, call_use_cloud,
  call_use_cloud_best, call_use_cloud_region, call_use_my_server, call_connect_using_settings,
  call_connect_to_master, call_get_game_version, call_game_connect, call_disconnect,
  call_debug_return, call_on_status_changed, call_on_operation_response, call_failed_to_connect,
  call_disconnected, call_connected_to_master,
}

module _ {W : Type 0} (E : Env W) (V : View W) where
  -- Both runs fault, or they return the same and end in states that the game cannot tell apart.
  abbrev pub Alike : {A : Type 0} → Option (A × State W) → Option (A × State W) → Type 0
  Alike none r = r ≡ none
  Alike (some (a, s)) r = Returns r (λ b t. (b ≡ a) × V.Quiet s t)

  -- What a view promises: the game's code runs alike in states that it cannot tell apart, and the
  -- pointers to the originals are part of what it sees.
  pub record Sees : Type 0 where
    pub originals : (s t : State W) → V.Quiet s t → t.originals ≡ s.originals
    pub voids :
        (fn : Ptr) (args : List Value) (s t : State W)
        → V.Quiet s t
        → Alike (E.invoke_void fn args s) (E.invoke_void fn args t)
    pub bools :
        (fn : Ptr) (args : List Value) (s t : State W)
        → V.Quiet s t
        → Alike (E.invoke_bool fn args s) (E.invoke_bool fn args t)
    pub ptrs :
        (fn : Ptr) (args : List Value) (s t : State W)
        → V.Quiet s t
        → Alike (E.invoke_ptr fn args s) (E.invoke_ptr fn args t)

module _ {W : Type 0} {E : Env W} {V : View W} ⦃laws : Probes E V⦄ where
  Wrapper-hooked : (c : Call) → Allowed V.IsInitialized c → Wrapper E V (original E c) (hooked E c)
  Wrapper-hooked (call_use_cloud self app_id method) up = Wrapper-hook_use_cloud self app_id method
  Wrapper-hooked (call_use_cloud_best self app_id method) up =
      Wrapper-hook_use_cloud_best self app_id method
  Wrapper-hooked (call_use_cloud_region self app_id region method) up =
      Wrapper-hook_use_cloud_region self app_id region method
  Wrapper-hooked (call_use_my_server self address port app_id method) up =
      Wrapper-hook_use_my_server self address port app_id method
  Wrapper-hooked (call_connect_using_settings game_version method) up =
      Wrapper-hook_connect_using_settings game_version method up
  Wrapper-hooked (call_connect_to_master address port app_id game_version method) up =
      Wrapper-hook_connect_to_master address port app_id game_version method up
  Wrapper-hooked (call_get_game_version method) up = Wrapper-hook_get_game_version method
  Wrapper-hooked (call_game_connect method) up = Wrapper-hook_game_connect method
  Wrapper-hooked (call_disconnect method) up = Wrapper-hook_disconnect method
  Wrapper-hooked (call_debug_return self level message method) up =
      Wrapper-hook_debug_return self level message method
  Wrapper-hooked (call_on_status_changed self status method) up =
      Wrapper-hook_on_status_changed self status method
  Wrapper-hooked (call_on_operation_response self response method) up =
      Wrapper-hook_on_operation_response self response method
  Wrapper-hooked (call_failed_to_connect self cause method) up =
      Wrapper-hook_failed_to_connect self cause method
  Wrapper-hooked (call_disconnected self method) up = Wrapper-hook_disconnected self method
  Wrapper-hooked (call_connected_to_master self method) up =
      Wrapper-hook_connected_to_master self method

module _ {W : Type 0} (E : Env W) (V : View W) ⦃laws : Probes E V⦄ where
  -- Under the laws of the probes and with sound statics, with PhotonNetwork initialised where the call
  -- is `ConnectUsingSettings` or `ConnectToMaster`: a call of one of the fifteen traced entries
  -- through its hook is one run of the original with the same arguments, from a state that the game
  -- cannot tell from the present one. It faults just if that run does; otherwise it returns what that
  -- run returns, ends in a state that the game cannot tell from the one that run ends in, and leaves
  -- the statics sound.
  pub hooked-Wraps :
      (c : Call) (s : State W)
      → Allowed V.IsInitialized c
      → Ready E V s
      → Wraps E V (original E c) s (hooked E c s)
  hooked-Wraps c s allowed ready = (Wrapper-hooked c allowed).at s ready

module _ {W : Type 0} (E : Env W) (V : View W) (sees : Sees E V) where
  call_original-Alike :
      {A : Type 0} (invoke : Ptr → List Value → State W → Option (A × State W))
      → ((fn : Ptr) (args : List Value) (s t : State W)
          → V.Quiet s t
          → Alike E V (invoke fn args s) (invoke fn args t))
      → (h : Hook) (args : List Value) (s t : State W) → V.Quiet s t
      → Alike E V (call_original E invoke h args s) (call_original E invoke h args t)
  call_original-Alike invoke alike h args s t quiet =
      rw (ap (λ (f : Hook → Ptr). f h) (sees.originals s t quiet))
        (elim (Bool-cases (is_null (s.originals h))) [
          | inl missing ↦ rw missing refl
          | inr there ↦ rw there (alike _ args s t quiet)
        ])

  original-Alike :
      (c : Call) (s t : State W) → V.Quiet s t → Alike E V (original E c s) (original E c t)
  original-Alike (call_use_cloud self app_id method) s t quiet =
      call_original-Alike E.invoke_void sees.voids use_cloud
        (ptr self ∷ ptr app_id ∷ ptr method ∷ []) s t quiet
  original-Alike (call_use_cloud_best self app_id method) s t quiet =
      call_original-Alike E.invoke_void sees.voids use_cloud_best
        (ptr self ∷ ptr app_id ∷ ptr method ∷ []) s t quiet
  original-Alike (call_use_cloud_region self app_id region method) s t quiet =
      call_original-Alike E.invoke_void sees.voids use_cloud_region
        (ptr self ∷ ptr app_id ∷ num region ∷ ptr method ∷ []) s t quiet
  original-Alike (call_use_my_server self address port app_id method) s t quiet =
      call_original-Alike E.invoke_void sees.voids use_my_server
        (ptr self ∷ ptr address ∷ num port ∷ ptr app_id ∷ ptr method ∷ []) s t quiet
  original-Alike (call_connect_using_settings game_version method) s t quiet =
      call_original-Alike E.invoke_bool sees.bools connect_using_settings
        (ptr game_version ∷ ptr method ∷ []) s t quiet
  original-Alike (call_connect_to_master address port app_id game_version method) s t quiet =
      call_original-Alike E.invoke_bool sees.bools connect_to_master
        (ptr address ∷ num port ∷ ptr app_id ∷ ptr game_version ∷ ptr method ∷ []) s t quiet
  original-Alike (call_get_game_version method) s t quiet =
      call_original-Alike E.invoke_ptr sees.ptrs get_game_version (ptr method ∷ []) s t quiet
  original-Alike (call_game_connect method) s t quiet =
      call_original-Alike E.invoke_bool sees.bools game_connect (ptr method ∷ []) s t quiet
  original-Alike (call_disconnect method) s t quiet =
      call_original-Alike E.invoke_void sees.voids disconnect (ptr method ∷ []) s t quiet
  original-Alike (call_debug_return self level message method) s t quiet =
      call_original-Alike E.invoke_void sees.voids debug_return
        (ptr self ∷ num level ∷ ptr message ∷ ptr method ∷ []) s t quiet
  original-Alike (call_on_status_changed self status method) s t quiet =
      call_original-Alike E.invoke_void sees.voids on_status_changed
        (ptr self ∷ num status ∷ ptr method ∷ []) s t quiet
  original-Alike (call_on_operation_response self response method) s t quiet =
      call_original-Alike E.invoke_void sees.voids on_operation_response
        (ptr self ∷ ptr response ∷ ptr method ∷ []) s t quiet
  original-Alike (call_failed_to_connect self cause method) s t quiet =
      call_original-Alike E.invoke_void sees.voids failed_to_connect
        (ptr self ∷ num cause ∷ ptr method ∷ []) s t quiet
  original-Alike (call_disconnected self method) s t quiet =
      call_original-Alike E.invoke_void sees.voids disconnected (ptr self ∷ ptr method ∷ []) s t
        quiet
  original-Alike (call_connected_to_master self method) s t quiet =
      call_original-Alike E.invoke_void sees.voids connected_to_master (ptr self ∷ ptr method ∷ [])
        s t quiet

module _ {W : Type 0} (E : Env W) (V : View W) ⦃laws : Probes E V⦄ where
  -- As `Alike`, with sound statics in the end: what `Ends` says of a result.
  joined : {A : Type 0} (p q r : Option (A × State W)) → Alike E V p q → Ends E V q r → Ends E V p r
  joined none q r same ends = subst (λ x. Ends E V x r) same ends
  joined (some (a, s)) none r same ends = absurd same
  joined (some (a, s)) (some (b, t)) none same ends = absurd ends
  joined (some (a, s)) (some (b, t)) (some (c, u)) (e, quiet) (e', quiet', ready) =
      (e' ∙ e, laws.quiet_trans s t u quiet quiet', ready)

  carried_on :
      {A B : Type 0} (p r : Option (A × State W)) (k m : A → M W B)
      → Ends E V p r
      → ((a : A) (s t : State W) → Ready E V t → V.Quiet s t → Ends E V (k a s) (m a t))
      → Ends E V (and_then p k) (and_then r m)
  carried_on none r k m ends rest = ap (λ x. and_then x m) ends
  carried_on (some (a, s)) none k m ends rest = absurd ends
  carried_on (some (a, s)) (some (b, t)) k m (e, quiet, ready) rest =
      subst (λ x. Ends E V (k a s) (m x t)) (sym e) (rest a s t ready quiet)

  -- Under the laws of the probes and of the view: take any client of the fifteen traced entries, which
  -- may let its next call depend on what the calls before returned, and two states that the game cannot
  -- tell apart, with sound statics in the second, and with PhotonNetwork initialised if the client ever
  -- calls `ConnectUsingSettings` or `ConnectToMaster`. The client with the hooks in the second state faults
  -- just if the client with the originals does in the first; otherwise it returns the same, and the
  -- game cannot tell the final states apart.
  pub run-hooked-Ends :
      {A : Type 0} (sees : Sees E V) (client : Client A) (s t : State W)
      → AllAllowed V.IsInitialized client
      → Ready E V t
      → V.Quiet s t
      → Ends E V (run (original E) client s) (run (hooked E) client t)
  unfolding run
  run-hooked-Ends sees (finish a) s t allowed ready quiet = (refl, quiet, ready)
  run-hooked-Ends sees (ask c next) s t (now, later_on) ready quiet =
      let (t1, later, ends) = (Wrapper-hooked c now).at t ready in
      carried_on (original E c s) (hooked E c t) _ _
        (joined (original E c s) (original E c t1) (hooked E c t)
          (original-Alike E V sees c s t1 (laws.quiet_trans s t t1 quiet later)) ends)
        λ a s' t' ready' quiet'. run-hooked-Ends sees (next a) s' t' (later_on a) ready' quiet'
