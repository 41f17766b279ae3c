-- ===== src/Hook/Steps.antt =====
-- Installing hooks acts on the process by calls of shadowhook alone.
use Prim.Native.String.{String}
use old_pixel_gun_3d_online.Base.{◌≡◌, refl, ◌∙◌, Bool, true, false, Option, none, some, List, Ptr}
use old_pixel_gun_3d_online.State.{Env, Platform, State, Hook, Engine, Arg}
use old_pixel_gun_3d_online.State.Monad.{
  M, ◌>>=◌, ◌>>◌, pure, gets, reads, acts, changes, branch, logi, logw, loge, Returns, Returns-bind,
  Returns-mono,
}
use old_pixel_gun_3d_online.Hook.{
  ManagedMethod, install, install_ready, ensure_engine, set_engine, hook_func_addr,
}

-- The second world is reached from the first by calls of shadowhook.
pub data Hooking {W : Type 0} (P : Platform W) : W → W → Type 0 where
  done : (w : W) → Hooking P w w
  init : (w v : W) → Hooking P (P.shadowhook_init w).1 v → Hooking P w v
  hook :
      (address replace : Ptr) (w v : W)
      → Hooking P (P.shadowhook_hook_func_addr address replace w).after v
      → Hooking P w v
  unhook : (stub : Ptr) (w v : W) → Hooking P (P.shadowhook_unhook stub w) v → Hooking P w v

module _ {W : Type 0} {P : Platform W} where
  Hooking-trans : (u v w : W) → Hooking P u v → Hooking P v w → Hooking P u w
  Hooking-trans u v w (done _) b = b
  Hooking-trans u v w (init _ _ a) b = init u w (Hooking-trans _ v w a b)
  Hooking-trans u v w (hook address replace _ _ a) b =
      hook address replace u w (Hooking-trans _ v w a b)
  Hooking-trans u v w (unhook stub _ _ a) b = unhook stub u w (Hooking-trans _ v w a b)

module _ {W : Type 0} (E : Env W) where
  -- Besides, only the pointers to the originals, the engine's flags and the log have changed.
  pub record HooksOnly (s t : State W) : Type 0 where
    pub world : Hooking E.platform s.world t.world
    pub slots : t.slots ≡ s.slots
    pub cloud : t.cloud ≡ s.cloud
    pub photon : t.photon ≡ s.photon

  HooksOnly-trans : (s t u : State W) → HooksOnly s t → HooksOnly t u → HooksOnly s u
  HooksOnly-trans s t u a b = record {
    world = Hooking-trans _ _ _ a.world b.world;
    slots = b.slots ∙ a.slots;
    cloud = b.cloud ∙ a.cloud;
    photon = b.photon ∙ a.photon;
  }

  HooksOnly-refl : (s : State W) → HooksOnly s s
  HooksOnly-refl s = record { world = done s.world; slots = refl; cloud = refl; photon = refl }

  -- It returns, and has acted by such calls.
  pub record Hooks {A : Type 0} (m : M W A) : Type 0 where
    pub at : (s : State W) → Returns (m s) (λ _ t. HooksOnly s t)

module _ {W A : Type 0} {E : Env W} where
  pub Hooks-pure : (a : A) → Hooks E (pure a)
  Hooks-pure a = record { at = HooksOnly-refl E }

  pub Hooks-gets : (f : State W → A) → Hooks E (gets f)
  Hooks-gets f = record { at = HooksOnly-refl E }

  pub Hooks-reads : (f : W → A) → Hooks E (reads f)
  Hooks-reads f = record { at = HooksOnly-refl E }

  pub Hooks-branch : (b : Bool) (m k : M W A) → Hooks E m → Hooks E k → Hooks E (branch b m k)
  Hooks-branch true m k hm hk = record { at = hm.at }
  Hooks-branch false m k hm hk = record { at = hk.at }

module _ {W A B : Type 0} {E : Env W} where
  pub Hooks-bind :
      (m : M W A) (k : A → M W B) → Hooks E m → ((a : A) → Hooks E (k a)) → Hooks E (m >>= k)
  Hooks-bind m k hm hk = record {
    at = λ s.
        Returns-bind _ _ (m s) k (hm.at s)
          λ a t h. Returns-mono _ _ (k a t) ((hk a).at t) λ b u g. HooksOnly-trans E s t u h g;
  }

  pub Hooks-then : (m : M W A) (k : M W B) → Hooks E m → Hooks E k → Hooks E (m >> k)
  Hooks-then m k hm hk = Hooks-bind m (λ _. k) hm (λ _. hk)

module _ {W : Type 0} {E : Env W} where
  logged : (s : State W) (l : List _) → HooksOnly E s (record s { log = l })
  logged s l = record { world = done s.world; slots = refl; cloud = refl; photon = refl }

  pub Hooks-logi : (text : String) (args : List Arg) → Hooks E (logi text args)
  Hooks-logi text args = record { at = λ s. logged s _ }

  pub Hooks-logw : (text : String) (args : List Arg) → Hooks E (logw text args)
  Hooks-logw text args = record { at = λ s. logged s _ }

  pub Hooks-loge : (text : String) (args : List Arg) → Hooks E (loge text args)
  Hooks-loge text args = record { at = λ s. logged s _ }

  Hooks-unhook : (stub : Ptr) → Hooks E (changes (E.shadowhook_unhook stub))
  Hooks-unhook stub = record {
    at =
        λ s. record { world = unhook stub _ _ (done _); slots = refl; cloud = refl; photon = refl };
  }

  Hooks-hook_func_addr :
      (address replacement : Ptr) (original : Hook)
      → Hooks E (hook_func_addr E address replacement original)
  unfolding hook_func_addr
  Hooks-hook_func_addr address replacement original = record {
    at = λ s. record {
      world = hook address replacement _ _ (done _);
      slots = refl;
      cloud = refl;
      photon = refl;
    };
  }

  Hooks-init : Hooks E (acts E.shadowhook_init)
  Hooks-init = record {
    at = λ s. record { world = init _ _ (done _); slots = refl; cloud = refl; photon = refl };
  }

  Hooks-set_engine : (e : Engine) → Hooks E (set_engine E e)
  unfolding set_engine
  Hooks-set_engine e = record {
    at = λ s. record { world = done s.world; slots = refl; cloud = refl; photon = refl };
  }

pub ruleset hooks_rules = (
  Hooks-pure, Hooks-gets, Hooks-reads, Hooks-branch, Hooks-logi, Hooks-logw, Hooks-loge, Hooks-bind,
  Hooks-then,
)

module _ {W : Type 0} {E : Env W} where
  Hooks-install_ready :
      (target : ManagedMethod) (replacement : Ptr) (original : Hook) (required : Bool)
      → Hooks E (install_ready E target replacement original required)
  unfolding install_ready
  Hooks-install_ready target replacement original required =
      search (hooks_rules, Hooks-unhook, Hooks-hook_func_addr) depth 40

  Hooks-ensure_engine : Hooks E (ensure_engine E)
  unfolding ensure_engine
  Hooks-ensure_engine = search (hooks_rules, Hooks-init, Hooks-set_engine) depth 40

  pub Hooks-install :
      (target : ManagedMethod) (replacement : Ptr) (original : Option Hook) (required : Bool)
      → Hooks E (install E target replacement original required)
  unfolding install
  Hooks-install target replacement none required = search hooks_rules depth 20
  Hooks-install target replacement (some original) required =
      search (hooks_rules, Hooks-ensure_engine, Hooks-install_ready) depth 40
