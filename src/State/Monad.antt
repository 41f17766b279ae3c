-- ===== src/State/Monad.antt =====
-- Effects on the state, with faults: the calls of the C++ code, one after the other.
use Prim.Native.String.{String}
use old_pixel_gun_3d_online.Base.{
  Bool, true, false, not, Option, none, some, List, ◌∷◌, ◌≡◌, refl, subst, Ptr, is_null,
  if◌then◌else◌,
}
use mathlib.Core.Logic.{ite}
use old_pixel_gun_3d_online.State.{
  Env, State, Export, Export-discrete, Hook, Hook-discrete, Level, info, warn, error, Arg, Cloud,
  Photon,
}

-- `none` is a fault, such as a call through a null pointer, or a loop that does not end.
abbrev pub M : Type 0 → Type 0 → Type 0
M W A = State W → Option (A × State W)

module _ {W : Type 0} {A B : Type 0} where
  abbrev pub and_then : Option (A × State W) → (A → M W B) → Option (B × State W)
  and_then none k = none
  and_then (some (a, s)) k = k a s

  infixl 5 ◌>>=◌ ◌>>◌
  abbrev pub ◌>>=◌ : M W A → (A → M W B) → M W B
  ◌>>=◌ m k s = and_then (m s) k

  abbrev pub ◌>>◌ : M W A → M W B → M W B
  ◌>>◌ m k s = and_then (m s) (λ _. k)

module _ {W : Type 0} {A : Type 0} where
  abbrev pub pure : A → M W A
  pure a s = some (a, s)

  abbrev pub fault : M W A
  fault s = none

  -- Reads, and actions of the world.
  abbrev pub gets : (State W → A) → M W A
  gets f s = some (f s, s)

  abbrev pub reads : (W → A) → M W A
  reads f s = some (f s.world, s)

  abbrev pub acts : (W → A × W) → M W A
  acts f s = let (a, w) = f s.world in some (a, record s { world = w })

  -- `if (b) { ... }` around the rest, and the conditional as an action.
  abbrev pub branch : Bool → M W A → M W A → M W A
  branch true m k s = m s
  branch false m k s = k s

module _ {W : Type 0} where
  abbrev pub changes : (W → W) → M W (Unit {0})
  changes f s = some (tt, record s { world = f s.world })

  abbrev pub modify_cloud : (Cloud → Cloud) → M W (Unit {0})
  modify_cloud f s = some (tt, record s { cloud = f s.cloud })

  abbrev pub modify_photon : (Photon → Photon) → M W (Unit {0})
  modify_photon f s = some (tt, record s { photon = f s.photon })

  abbrev pub log_line : Level → String → List Arg → M W (Unit {0})
  log_line level text args s =
      some (tt, record s { log = record { level = level; text = text; args = args } ∷ s.log })

  abbrev pub logi : String → List Arg → M W (Unit {0})
  logi = log_line info

  abbrev pub logw : String → List Arg → M W (Unit {0})
  logw = log_line warn

  abbrev pub loge : String → List Arg → M W (Unit {0})
  loge = log_line error

  -- A call through one of the pointers of il2cpp.h faults while that is null.
  abbrev pub through : Export → M W (Unit {0})
  through e s = if is_null (s.slots e) then none else some (tt, s)

  -- An access to a static field faults while the class has no memory for it. The fields that the code
  -- accesses are PhotonNetwork's.
  abbrev pub touch_statics : Env W → M W (Unit {0})
  touch_statics E s = if E.network_initialized s.world then some (tt, s) else none

  abbrev pub bound : Export → State W → Bool
  bound e s = not (is_null (s.slots e))

-- Writes to one of the pointers.
abbrev pub set_slot : Export → Ptr → (Export → Ptr) → Export → Ptr
set_slot e p slots x = ite (Export-discrete x e) p (slots x)

abbrev pub set_original : Hook → Ptr → (Hook → Ptr) → Hook → Ptr
set_original h p originals x = ite (Hook-discrete x h) p (originals x)

-- A run without a fault whose result and final state satisfy `Q`.
abbrev pub Returns :
    {W : Type 0} {A : Type 0} → Option (A × State W) → (A → State W → Type 0) → Type 0
Returns none Q = ⊥
Returns (some (a, s)) Q = Q a s

-- Every run without a fault satisfies `Q`.
abbrev pub Ensures :
    {W : Type 0} {A : Type 0} → Option (A × State W) → (A → State W → Type 0) → Type 0
Ensures none Q = Unit
Ensures (some (a, s)) Q = Q a s

-- Postconditions compose, and may be weakened.
module _ {W A B : Type 0} where
  pub Returns-bind :
      (P : A → State W → Type 0) (Q : B → State W → Type 0) (r : Option (A × State W))
      (k : A → M W B)
      → Returns r P
      → ((a : A) (s : State W) → P a s → Returns (k a s) Q)
      → Returns (and_then r k) Q
  Returns-bind P Q none k h rest = h
  Returns-bind P Q (some (a, s)) k h rest = rest a s h

module _ {W A : Type 0} where
  pub Returns-mono :
      (P Q : A → State W → Type 0) (r : Option (A × State W))
      → Returns r P
      → ((a : A) (s : State W) → P a s → Q a s)
      → Returns r Q
  Returns-mono P Q none h f = h
  Returns-mono P Q (some (a, s)) h f = f a s h

  -- What a run without a fault returns, from an equation.
  pub Returns-eq :
      (Q : A → State W → Type 0) (r : Option (A × State W)) {a : A} {s : State W}
      → Returns r Q
      → r ≡ some (a, s)
      → Q a s
  Returns-eq Q r h e = subst (λ x. Returns x Q) e h

module _ {W A B : Type 0} where
  pub Ensures-bind :
      (P : A → State W → Type 0) (Q : B → State W → Type 0) (r : Option (A × State W))
      (k : A → M W B)
      → Ensures r P
      → ((a : A) (s : State W) → P a s → Ensures (k a s) Q)
      → Ensures (and_then r k) Q
  Ensures-bind P Q none k h rest = tt
  Ensures-bind P Q (some (a, s)) k h rest = rest a s h

module _ {W A : Type 0} where
  pub Ensures-mono :
      (P Q : A → State W → Type 0) (r : Option (A × State W))
      → Ensures r P
      → ((a : A) (s : State W) → P a s → Q a s)
      → Ensures r Q
  Ensures-mono P Q none h f = tt
  Ensures-mono P Q (some (a, s)) h f = f a s h

  pub Ensures-eq :
      (Q : A → State W → Type 0) (r : Option (A × State W)) {a : A} {s : State W}
      → Ensures r Q
      → r ≡ some (a, s)
      → Q a s
  Ensures-eq Q r h e = subst (λ x. Ensures x Q) e h

  -- Any result at all satisfies what always holds.
  pub Ensures-any :
      (Q : A → State W → Type 0) (r : Option (A × State W))
      → ((a : A) (s : State W) → Q a s)
      → Ensures r Q
  Ensures-any Q none h = tt
  Ensures-any Q (some (a, s)) h = h a s

  pub Ensures-if :
      (Q : A → State W → Type 0) (b : Bool) (m k : M W A) (s : State W)
      → (b ≡ true → Ensures (m s) Q)
      → (b ≡ false → Ensures (k s) Q)
      → Ensures (branch b m k s) Q
  Ensures-if Q true m k s t f = t refl
  Ensures-if Q false m k s t f = f refl

  -- A run that returns satisfies what every run without a fault does.
  pub Returns-Ensures :
      (P Q : A → State W → Type 0) (r : Option (A × State W))
      → Returns r P
      → Ensures r Q
      → Returns r (λ a s. P a s × Q a s)
  Returns-Ensures P Q none h k = h
  Returns-Ensures P Q (some (a, s)) h k = (h, k)

  pub Returns-both :
      (P Q : A → State W → Type 0) (r : Option (A × State W))
      → Returns r P
      → Returns r Q
      → Returns r (λ a s. P a s × Q a s)
  Returns-both P Q none h k = h
  Returns-both P Q (some (a, s)) h k = (h, k)
