-- ===== src/Hook/Laws.antt =====
-- What shadowhook documents of its calls, as laws of the replacement that runs at an entry address.
use mathlib.Core.Logic.{if_neg}
use old_pixel_gun_3d_online.Base.{◌≡◌, ◌≢◌, Ptr, null}
use old_pixel_gun_3d_online.State.{Platform, Hook, Hook-discrete}
use old_pixel_gun_3d_online.State.Monad.{set_original}

pub record Patches {W : Type 0} (P : Platform W) : Type 0 where
  -- The function that runs in place of the code at an address, null if that code runs itself.
  pub patched : W → Ptr → Ptr
  pub init_keeps : (w : W) (a : Ptr) → patched (P.shadowhook_init w).1 a ≡ patched w a
  -- A call that fails patches nothing.
  pub hook_fails :
      (address replace : Ptr) (w : W)
      → (P.shadowhook_hook_func_addr address replace w).stub ≡ null
      → (a : Ptr) → patched (P.shadowhook_hook_func_addr address replace w).after a ≡ patched w a
  -- A call that succeeds patches its address, and no other.
  pub hook_sets :
      (address replace : Ptr) (w : W)
      → (P.shadowhook_hook_func_addr address replace w).stub ≢ null
      → patched (P.shadowhook_hook_func_addr address replace w).after address ≡ replace
  pub hook_others :
      (address replace : Ptr) (w : W)
      → (P.shadowhook_hook_func_addr address replace w).stub ≢ null
      → (a : Ptr) → a ≢ address
      → patched (P.shadowhook_hook_func_addr address replace w).after a ≡ patched w a
  -- Unhooking what was just hooked brings the entries back.
  pub unhook_restores :
      (address replace : Ptr) (w : W)
      → (P.shadowhook_hook_func_addr address replace w).stub ≢ null
      → (a : Ptr)
      → patched
          (P.shadowhook_unhook
            (P.shadowhook_hook_func_addr address replace w).stub
            (P.shadowhook_hook_func_addr address replace w).after)
          a
        ≡ patched w a

module _ (h : Hook) (p : Ptr) (originals : Hook → Ptr) where
  pub set_original_ne : (x : Hook) → x ≢ h → set_original h p originals x ≡ originals x
  set_original_ne x ne = if_neg (Hook-discrete x h) ne p (originals x)
