-- ===== src/Init/Exports/Slots.antt =====
-- Code of the start that leaves the pointers of il2cpp.h as they are.
use Prim.Native.String.{String}
use old_pixel_gun_3d_online.Base.{
  ℕ, zero, suc, ◌≡◌, refl, ◌∙◌, inl, inr, Bool, true, false, not, Option, none, some, List, Ptr,
  null, is_null, Bool-cases, [],
}
use old_pixel_gun_3d_online.State.{Env, State, Export, Arg, domain_get}
use old_pixel_gun_3d_online.State.Monad.{
  M, ◌>>=◌, ◌>>◌, pure, gets, reads, acts, changes, branch, through, logi, loge, Returns, Ensures,
  Returns-mono, Ensures-bind, Ensures-mono,
}
use old_pixel_gun_3d_online.Photon.Install.Hooking as PhotonSteps
use old_pixel_gun_3d_online.Photon.Install as Photon
use old_pixel_gun_3d_online.Cloud.Install.Hooking as CloudSteps
use old_pixel_gun_3d_online.Cloud.Install as Cloud
use old_pixel_gun_3d_online.Init.{wait_steps}
use old_pixel_gun_3d_online.Init.Thread.{
  poll, report_installs, install_all, detach, run_attached, wait_settled, run_domain,
}

-- The pointers of il2cpp.h stay as they are.
pub record SameSlots {W A : Type 0} (m : M W A) : Type 0 where
  pub at : (s : State W) → Ensures (m s) (λ _ t. t.slots ≡ s.slots)

module _ {W A : Type 0} where
  SameSlots-pure : (a : A) → SameSlots {W = W} (pure a)
  SameSlots-pure a = record { at = λ s. refl }

  SameSlots-gets : (f : State W → A) → SameSlots (gets f)
  SameSlots-gets f = record { at = λ s. refl }

  SameSlots-acts : (f : W → A × W) → SameSlots (acts f)
  SameSlots-acts f = record { at = λ s. refl }

  SameSlots-branch : (b : Bool) (m k : M W A) → SameSlots m → SameSlots k → SameSlots (branch b m k)
  SameSlots-branch true m k sm sk = record { at = sm.at }
  SameSlots-branch false m k sm sk = record { at = sk.at }

  same_of_run :
      (s : State W) (r : Option (A × State W))
      → Returns r (λ _ t. t.slots ≡ s.slots)
      → Ensures r (λ _ t. t.slots ≡ s.slots)
  same_of_run s none h = tt
  same_of_run s (some (a, t)) h = h

module _ {W A B : Type 0} where
  SameSlots-bind :
      (m : M W A) (k : A → M W B) → SameSlots m → ((a : A) → SameSlots (k a)) → SameSlots (m >>= k)
  SameSlots-bind m k sm sk = record {
    at = λ s.
        Ensures-bind _ _ (m s) k (sm.at s)
          λ a t e. Ensures-mono _ _ (k a t) ((sk a).at t) λ b u f. f ∙ e;
  }

  SameSlots-then : (m : M W A) (k : M W B) → SameSlots m → SameSlots k → SameSlots (m >> k)
  SameSlots-then m k sm sk = SameSlots-bind m (λ _. k) sm (λ _. sk)

module _ {W : Type 0} where
  SameSlots-reads : {B : Type 0} (f : W → B) → SameSlots (reads f)
  SameSlots-reads f = record { at = λ s. refl }

  SameSlots-changes : (f : W → W) → SameSlots (changes f)
  SameSlots-changes f = record { at = λ s. refl }

  SameSlots-logi : (text : String) (args : List Arg) → SameSlots {W = W} (logi text args)
  SameSlots-logi text args = record { at = λ s. refl }

  SameSlots-loge : (text : String) (args : List Arg) → SameSlots {W = W} (loge text args)
  SameSlots-loge text args = record { at = λ s. refl }

  SameSlots-through : (e : Export) → SameSlots {W = W} (through e)
  SameSlots-through e = record {
    at = λ s. elim (Bool-cases (is_null (s.slots e))) [ inl z ↦ rw z tt | inr z ↦ rw z refl ];
  }

ruleset slot_rules = (
  SameSlots-pure, SameSlots-gets, SameSlots-acts, SameSlots-branch, SameSlots-bind, SameSlots-then,
  SameSlots-reads, SameSlots-changes, SameSlots-logi, SameSlots-loge, SameSlots-through,
)

module _ {W A : Type 0} (E : Env W) where
  SameSlots-poll :
      (found : A → Bool) (probe : M W A) (left : ℕ) (a : A)
      → SameSlots probe
      → SameSlots (poll E found probe left a)
  unfolding poll
  SameSlots-poll found probe zero a h = SameSlots-pure a
  SameSlots-poll found probe (suc left) a h = SameSlots-branch _ _ _ (SameSlots-pure a) (
      SameSlots-bind _ _ h λ b.
        SameSlots-then _ _ (SameSlots-branch _ _ _ (SameSlots-pure tt) (SameSlots-changes _))
          (SameSlots-poll found probe left b h))

module _ {W : Type 0} (E : Env W) where
  SameSlots-photon : SameSlots (Photon.install_hooks E)
  SameSlots-photon = record {
    at = λ s. same_of_run s (Photon.install_hooks E s) (
        Returns-mono _ _ (Photon.install_hooks E s) (PhotonSteps.Hooks-install_hooks.at s)
          λ a t h. h.slots);
  }

  SameSlots-guard : SameSlots (Cloud.install_hooks E)
  SameSlots-guard = record {
    at = λ s. same_of_run s (Cloud.install_hooks E s) (
        Returns-mono _ _ (Cloud.install_hooks E s) (CloudSteps.Hooks-install_hooks.at s)
          λ a t h. h.slots);
  }

  SameSlots-settled : (domain : Ptr) → SameSlots (wait_settled E domain)
  unfolding wait_settled
  SameSlots-settled domain = record { at = λ s. refl }

  SameSlots-run_attached : (thread : Ptr) → SameSlots (run_attached E thread)
  unfolding run_attached install_all report_installs detach
  SameSlots-run_attached thread =
      search (slot_rules, SameSlots-poll, SameSlots-photon, SameSlots-guard) depth 60

  SameSlots-run_domain : (domain : Ptr) → SameSlots (run_domain E domain)
  unfolding run_domain
  SameSlots-run_domain domain =
      search (slot_rules, SameSlots-settled, SameSlots-run_attached) depth 60

  pub SameSlots-from_domain : SameSlots do
    domain ←
        poll E
          (λ p. not (is_null p))
          (do through domain_get; reads E.il2cpp_domain_get)
          wait_steps
          null
    branch (is_null domain) (loge "init: il2cpp_domain_get() stayed null" []) (run_domain E domain)
  SameSlots-from_domain = search (slot_rules, SameSlots-poll, SameSlots-run_domain) depth 60
