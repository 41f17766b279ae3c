-- ===== src/Secrets/Rules.antt =====
-- One rule for each way to build code whose two runs stay alike.
use Prim.Native.String.{String}
use old_pixel_gun_3d_online.Base.{
  ◌≡◌, refl, ap, Bool, true, false, Option, none, some, List, Ptr, is_null, Bool-cases, inl, inr,
}
use old_pixel_gun_3d_online.State.{Env, State, Hook, Value, Export, Arg, Cloud, Photon}
use old_pixel_gun_3d_online.State.Monad.{
  M, ◌>>=◌, ◌>>◌, and_then, pure, gets, reads, acts, changes, branch, through, touch_statics,
  modify_cloud, modify_photon, logi, logw, loge, Ensures,
}
use old_pixel_gun_3d_online.Cloud.{call_original}
use old_pixel_gun_3d_online.Secrets.{Secrets, Prepared, SameRuns, Twins}

-- From states that are alike, `m` in the one process and `k` in the other run alike.
pub record Blind {W A : Type 0} (V : Secrets W) (m k : M W A) : Type 0 where
  pub at :
      (s : State W) (u : W)
      → V.Alike s.world u
      → Prepared V s
      → SameRuns V (m s) (k (record s { world = u }))

module _ {W A : Type 0} {V : Secrets W} where
  pub Blind-pure : (a : A) → Blind V (pure a) (pure a)
  Blind-pure a = record { at = λ s u l p. (u, refl, l, p) }

  pub Blind-gets :
      (f g : State W → A)
      → ((s : State W) (u : W) → V.Alike s.world u → g (record s { world = u }) ≡ f s)
      → Blind V (gets f) (gets g)
  Blind-gets f g same = record {
    at = λ s u l p. (u, ap (λ a. some (a, record s { world = u })) (same s u l), l, p);
  }

  pub Blind-reads :
      (f g : W → A) → ((w u : W) → V.Alike w u → g u ≡ f w) → Blind V (reads f) (reads g)
  Blind-reads f g same = record {
    at = λ s u l p. (u, ap (λ a. some (a, record s { world = u })) (same s.world u l), l, p);
  }

  pub Blind-branch :
      (b : Bool) (m m' k k' : M W A)
      → (b ≡ true → Blind V m m')
      → (b ≡ false → Blind V k k')
      → Blind V (branch b m k) (branch b m' k')
  Blind-branch true m m' k k' sm sk = record { at = λ s u l p. (sm refl).at s u l p }
  Blind-branch false m m' k k' sm sk = record { at = λ s u l p. (sk refl).at s u l p }

  -- The two tests may be written differently.
  pub Blind-if :
      (b b' : Bool) (m m' k k' : M W A)
      → b' ≡ b
      → (b ≡ true → Blind V m m')
      → (b ≡ false → Blind V k k')
      → Blind V (branch b m k) (branch b' m' k')
  Blind-if b b' m m' k k' e sm sk = rw e (Blind-branch b m m' k k' sm sk)

module _ {W A B : Type 0} {V : Secrets W} where
  SameRuns-bind :
      (r r' : Option (A × State W)) (k k' : A → M W B)
      → SameRuns V r r'
      → ((a : A) → Blind V (k a) (k' a))
      → SameRuns V (and_then r k) (and_then r' k')
  SameRuns-bind none r' k k' h rest = ap (λ x. and_then x k') h
  SameRuns-bind (some (a, t)) r' k k' (u, e, l, p) rest = rw e ((rest a).at t u l p)

  pub Blind-bind :
      (m m' : M W A) (k k' : A → M W B)
      → Blind V m m'
      → ((a : A) → Blind V (k a) (k' a))
      → Blind V (m >>= k) (m' >>= k')
  Blind-bind m m' k k' sm sk = record {
    at = λ s u l p. SameRuns-bind (m s) _ k k' (sm.at s u l p) sk;
  }

  pub Blind-then :
      (m m' : M W A) (k k' : M W B) → Blind V m m' → Blind V k k' → Blind V (m >> k) (m' >> k')
  Blind-then m m' k k' sm sk = Blind-bind m m' (λ _. k) (λ _. k') sm (λ _. sk)

  SameRuns-known :
      (P : A → Type 0) (r r' : Option (A × State W)) (k k' : A → M W B)
      → SameRuns V r r'
      → Ensures r (λ a _. P a)
      → ((a : A) → P a → Blind V (k a) (k' a))
      → SameRuns V (and_then r k) (and_then r' k')
  SameRuns-known P none r' k k' h known rest = ap (λ x. and_then x k') h
  SameRuns-known P (some (a, t)) r' k k' (u, e, l, p) known rest = rw e ((rest a known).at t u l p)

  -- What is known of the result may be used behind it.
  pub Blind-known :
      (P : A → Type 0) (m m' : M W A) (k k' : A → M W B)
      → Blind V m m'
      → ((s : State W) → Prepared V s → Ensures (m s) (λ a _. P a))
      → ((a : A) → P a → Blind V (k a) (k' a))
      → Blind V (m >>= k) (m' >>= k')
  Blind-known P m m' k k' sm known rest = record {
    at = λ s u l p. SameRuns-known P (m s) _ k k' (sm.at s u l p) (known s p) rest;
  }

module _ {W : Type 0} {V : Secrets W} where
  Prepared-log : (s : State W) (l : List _) → Prepared V s → Prepared V (record s { log = l })
  Prepared-log s l p = record { address = p.address; version = p.version }

  pub Blind-logi : (text : String) (args : List Arg) → Blind V (logi text args) (logi text args)
  Blind-logi text args = record { at = λ s u l p. (u, refl, l, Prepared-log s _ p) }

  pub Blind-logw : (text : String) (args : List Arg) → Blind V (logw text args) (logw text args)
  Blind-logw text args = record { at = λ s u l p. (u, refl, l, Prepared-log s _ p) }

  pub Blind-loge : (text : String) (args : List Arg) → Blind V (loge text args) (loge text args)
  Blind-loge text args = record { at = λ s u l p. (u, refl, l, Prepared-log s _ p) }

  pub Blind-modify_cloud : (f : Cloud → Cloud) → Blind V (modify_cloud f) (modify_cloud f)
  Blind-modify_cloud f = record {
    at = λ s u l p. (u, refl, l, record { address = p.address; version = p.version });
  }

  -- The getter of the server address stays, or becomes the one that is looked up.
  pub Blind-modify_photon :
      (f : Photon → Photon)
      → ((p : Photon) → (f p).address_fn ≡ p.address_fn)
      → Blind V (modify_photon f) (modify_photon f)
  Blind-modify_photon f keeps = record {
    at = λ s u l p.
        (u, refl, l, record { address = rw (keeps s.photon) p.address; version = p.version });
  }

  pub Blind-through : (e : Export) → Blind V (through e) (through e)
  Blind-through e = record {
    at = λ s u l p. elim (Bool-cases (is_null (s.slots e))) [
      | inl z ↦ rw z refl
      | inr z ↦ rw z (u, refl, l, p)
    ];
  }

  pub Blind-changes :
      (f g : W → W)
      → ((w u : W) → V.Alike w u → V.Alike (f w) (g u))
      → Blind V (changes f) (changes g)
  Blind-changes f g keeps = record {
    at = λ s u l p.
        (g u, refl, keeps s.world u l, record { address = p.address; version = p.version });
  }

module _ {W : Type 0} (E F : Env W) (V : Secrets W) ⦃twins : Twins E F V⦄ where
  pub Blind-touch : Blind V (touch_statics E) (touch_statics F)
  Blind-touch = record {
    at = λ s u l p.
        rw (twins.same_initialized l) (elim (Bool-cases (E.network_initialized s.world)) [
          | inl z ↦ rw z (u, refl, l, p)
          | inr z ↦ rw z refl
        ]);
  }

module _ {W A : Type 0} {V : Secrets W} where
  pub Blind-acts :
      (f g : W → A × W)
      → ((w u : W) → V.Alike w u → ((g u).0 ≡ (f w).0) × V.Alike (f w).1 (g u).1)
      → Blind V (acts f) (acts g)
  Blind-acts f g same = record {
    at = λ s u l p. (
      (g u).1,
      ap (λ a. some (a, record s { world = (g u).1 })) (same s.world u l).0,
      (same s.world u l).1,
      record { address = p.address; version = p.version },
    );
  }

module _ {W A : Type 0} (E F : Env W) (V : Secrets W) where
  Blind-call_original :
      (f g : Ptr → List Value → M W A)
      → ((fn : Ptr) (args : List Value) → Blind V (f fn args) (g fn args))
      → (h : Hook) (args : List Value)
      → Blind V (call_original E f h args) (call_original F g h args)
  Blind-call_original f g same h args = record {
    at = λ s u l p. elim (Bool-cases (is_null (s.originals h))) [
      | inl z ↦ rw z refl
      | inr z ↦ rw z ((same (s.originals h) args).at s u l p)
    ];
  }

module _ {W : Type 0} (E F : Env W) (V : Secrets W) ⦃twins : Twins E F V⦄ where
  pub Blind-invoke_void :
      (fn : Ptr) (args : List Value) → Blind V (E.invoke_void fn args) (F.invoke_void fn args)
  Blind-invoke_void fn args = record { at = twins.same_void fn args }

  pub Blind-invoke_ptr :
      (fn : Ptr) (args : List Value) → Blind V (E.invoke_ptr fn args) (F.invoke_ptr fn args)
  Blind-invoke_ptr fn args = record { at = twins.same_ptr fn args }

  pub Blind-invoke_int :
      (fn : Ptr) (args : List Value) → Blind V (E.invoke_int fn args) (F.invoke_int fn args)
  Blind-invoke_int fn args = record { at = twins.same_int fn args }

  pub Blind-void :
      (h : Hook) (args : List Value)
      → Blind V (call_original E E.invoke_void h args) (call_original F F.invoke_void h args)
  Blind-void = Blind-call_original E F V E.invoke_void F.invoke_void Blind-invoke_void

  pub Blind-bool :
      (h : Hook) (args : List Value)
      → Blind V (call_original E E.invoke_bool h args) (call_original F F.invoke_bool h args)
  Blind-bool =
      Blind-call_original E F V E.invoke_bool F.invoke_bool
        (λ fn args. record { at = twins.same_bool fn args })

  pub Blind-ptr :
      (h : Hook) (args : List Value)
      → Blind V (call_original E E.invoke_ptr h args) (call_original F F.invoke_ptr h args)
  Blind-ptr = Blind-call_original E F V E.invoke_ptr F.invoke_ptr Blind-invoke_ptr

pub ruleset blind_rules = (
  Blind-pure, Blind-gets, Blind-reads, Blind-branch, Blind-logi, Blind-logw, Blind-loge,
  Blind-modify_cloud, Blind-modify_photon, Blind-through, Blind-changes, Blind-bind, Blind-then,
)
