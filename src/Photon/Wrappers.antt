-- ===== src/Photon/Wrappers.antt =====
-- Code around one call of an original: what it must not change, and one rule for each way to build it.
use old_pixel_gun_3d_online.Base.{
  Ptr, ◌≡◌, refl, Option, none, some, List, is_null, Bool-cases, inl, inr,
}
use old_pixel_gun_3d_online.State.{Env, State, Hook, Value}
use old_pixel_gun_3d_online.State.Monad.{
  M, ◌>>=◌, ◌>>◌, and_then, pure, Returns, Ensures, Returns-bind, Returns-mono,
}
use old_pixel_gun_3d_online.Cloud.{call_original}
use old_pixel_gun_3d_online.Photon.Observers.{View, Ready, Probes}
use old_pixel_gun_3d_online.Photon.Rules.{Observer}

module _ {W A : Type 0} (E : Env W) (V : View W) where
  -- The run ends as the original's run has, in its result and in what can be seen.
  abbrev pub Ends : Option (A × State W) → Option (A × State W) → Type 0
  Ends none r = r ≡ none
  Ends (some (a, t)) r = Returns r (λ b t'. (b ≡ a) × V.Quiet t t' × Ready E V t')

  -- Up to what cannot be seen, the run from `s` is one run of the original.
  abbrev pub Wraps : M W A → State W → Option (A × State W) → Type 0
  Wraps original s r = (s1 : State W) × V.Quiet s s1 × Ends (original s1) r

  pub record Wrapper (original m : M W A) : Type 0 where
    pub at : (s : State W) → Ready E V s → Wraps original s (m s)

  -- An observer that returns `a`.
  pub record Gives (a : A) (m : M W A) : Type 0 where
    pub at :
        (s : State W) → Ready E V s → Returns (m s) (λ b t. (b ≡ a) × V.Quiet s t × Ready E V t)

  pub record Keeps (m : M W A) : Type 0 where
    pub at : (s : State W) → Ready E V s → Ensures (m s) (λ _. Ready E V)

module _ {W A : Type 0} (E : Env W) (V : View W) ⦃laws : Probes E V⦄ where
  Ends-self : (r : Option (A × State W)) → Ensures r (λ _. Ready E V) → Ends E V r r
  Ends-self none k = refl
  Ends-self (some (a, t)) k = (refl, laws.quiet_refl t, k)

module _ {W A : Type 0} {E : Env W} {V : View W} ⦃laws : Probes E V⦄ where
  pub Gives-pure : (a : A) → Gives E V a (pure a)
  Gives-pure a = record { at = λ s r. (refl, laws.quiet_refl s, r) }

  pub Wrapper-original : (original : M W A) → Keeps E V original → Wrapper E V original original
  Wrapper-original original keeps = record {
    at = λ s r. (s, laws.quiet_refl s, Ends-self E V (original s) (keeps.at s r));
  }

  Ends-then :
      (r : Option (A × State W)) (k : A → M W A)
      → Ensures r (λ _. Ready E V)
      → ((a : A) → Gives E V a (k a))
      → Ends E V r (and_then r k)
  Ends-then none k keeps gives = refl
  Ends-then (some (a, t)) k keeps gives = (gives a).at t keeps

  pub Wrapper-result :
      (original : M W A) (k : A → M W A)
      → Keeps E V original
      → ((a : A) → Gives E V a (k a))
      → Wrapper E V original (original >>= k)
  Wrapper-result original k keeps gives = record {
    at = λ s r. (s, laws.quiet_refl s, Ends-then (original s) k (keeps.at s r) gives);
  }

module _ {W A B : Type 0} {E : Env W} {V : View W} ⦃laws : Probes E V⦄ where
  pub Gives-bind :
      (a : A) (m : M W B) (k : B → M W A)
      → Observer E V m
      → ((b : B) → Gives E V a (k b))
      → Gives E V a (m >>= k)
  Gives-bind a m k om gk = record {
    at = λ s r. Returns-bind _ _ (m s) k (om.at s r) λ b t u.
        Returns-mono _ _ (k b t) ((gk b).at t u.1)
          λ c t' u'. (u'.0, laws.quiet_trans s t t' u.0 u'.1, u'.2);
  }

  pub Gives-then :
      (a : A) (m : M W B) (k : M W A) → Observer E V m → Gives E V a k → Gives E V a (m >> k)
  Gives-then a m k om gk = Gives-bind a m (λ _. k) om (λ _. gk)

  Wraps-and_then :
      (original : M W A) (s : State W) (r : Option (B × State W)) (k : B → M W A)
      → Returns r (λ _ t. V.Quiet s t × Ready E V t)
      → ((b : B) → Wrapper E V original (k b))
      → Wraps E V original s (and_then r k)
  Wraps-and_then original s none k q w = absurd q
  Wraps-and_then original s (some (b, t)) k q w =
      let (s1, quiet, ends) = (w b).at t q.1 in (s1, laws.quiet_trans s t s1 q.0 quiet, ends)

  pub Wrapper-bind :
      (original : M W A) (m : M W B) (k : B → M W A)
      → Observer E V m
      → ((b : B) → Wrapper E V original (k b))
      → Wrapper E V original (m >>= k)
  Wrapper-bind original m k om wk = record {
    at = λ s r. Wraps-and_then original s (m s) k (om.at s r) wk;
  }

  pub Wrapper-then :
      (original : M W A) (m : M W B) (k : M W A)
      → Observer E V m
      → Wrapper E V original k
      → Wrapper E V original (m >> k)
  Wrapper-then original m k om wk = Wrapper-bind original m (λ _. k) om (λ _. wk)

module _ {W : Type 0} {E : Env W} {V : View W} ⦃laws : Probes E V⦄ where
  pub Gives-unit : (m : M W (Unit {0})) → Observer E V m → Gives E V tt m
  Gives-unit m om = record {
    at = λ s r. Returns-mono _ _ (m s) (om.at s r) λ u t q. (refl, q.0, q.1);
  }

  pub Wrapper-void :
      (original m : M W (Unit {0}))
      → Keeps E V original
      → Observer E V m
      → Wrapper E V original (original >> m)
  Wrapper-void original m keeps om = Wrapper-result original (λ _. m) keeps (λ _. Gives-unit m om)

module _ {W A : Type 0} {E : Env W} {V : View W} where
  pub Keeps-call_original :
      (invoke : Ptr → List Value → State W → Option (A × State W))
      → ((fn : Ptr) (args : List Value) (s : State W)
          → Ready E V s
          → Ensures (invoke fn args s) (λ _. Ready E V))
      → (h : Hook) (args : List Value) → Keeps E V (call_original E invoke h args)
  Keeps-call_original invoke keeps h args = record {
    at = λ s r. elim (Bool-cases (is_null (s.originals h))) [
      | inl missing ↦ rw missing tt
      | inr there ↦ rw there (keeps _ args s r)
    ];
  }
