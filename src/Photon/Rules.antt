-- ===== src/Photon/Rules.antt =====
-- One rule for each way to build code that only probes and logs, and for code around an original.
use Prim.Native.String.{String}
use old_pixel_gun_3d_online.Base.{
  ℕ, ◌≡◌, inl, inr, refl, Bool, true, false, Option, none, some, List, Ptr, Option-cases,
}
use old_pixel_gun_3d_online.State.{Env, State, Arg}
use old_pixel_gun_3d_online.State.Monad.{
  M, ◌>>=◌, ◌>>◌, and_then, pure, gets, reads, branch, logi, logw, loge, Returns, Ensures,
  Returns-bind, Returns-mono,
}
use old_pixel_gun_3d_online.Il2cpp.Fields.{
  read_field, field_bytes, read_field-some, field_bytes-ne-none,
}
use old_pixel_gun_3d_online.Photon.Observers.{View, Ready, Probes}

-- The code returns, and what it does cannot be seen.
pub record Observer {W A : Type 0} (E : Env W) (V : View W) (m : M W A) : Type 0 where
  pub at : (s : State W) → Ready E V s → Returns (m s) (λ _ t. V.Quiet s t × Ready E V t)

module _ {W : Type 0} (E : Env W) (V : View W) where
  -- The same of one run.
  abbrev pub Seen : {A : Type 0} → State W → Option (A × State W) → Type 0
  Seen s r = Returns r (λ _ t. V.Quiet s t × Ready E V t)

  pub both :
      {A : Type 0} (s : State W) (r : Option (A × State W))
      → Returns r (λ _ t. V.Quiet s t)
      → Ensures r (λ _. Ready E V)
      → Seen s r
  both s none q k = q
  both s (some (a, t)) q k = (q, k)

module _ {W A : Type 0} {E : Env W} {V : View W} ⦃laws : Probes E V⦄ where
  pub Observer-pure : (a : A) → Observer E V (pure a)
  Observer-pure a = record { at = λ s r. (laws.quiet_refl s, r) }

  pub Observer-gets : (f : State W → A) → Observer E V (gets f)
  Observer-gets f = record { at = λ s r. (laws.quiet_refl s, r) }

  pub Observer-reads : (f : W → A) → Observer E V (reads f)
  Observer-reads f = record { at = λ s r. (laws.quiet_refl s, r) }

  pub Observer-branch :
      (b : Bool) (m k : M W A)
      → (b ≡ true → Observer E V m)
      → (b ≡ false → Observer E V k)
      → Observer E V (branch b m k)
  Observer-branch true m k om ok = record { at = λ s r. (om refl).at s r }
  Observer-branch false m k om ok = record { at = λ s r. (ok refl).at s r }

module _ {W : Type 0} {E : Env W} {V : View W} ⦃laws : Probes E V⦄ where
  Ready-log : (s : State W) (l : List _) → Ready E V s → Ready E V (record s { log = l })
  Ready-log s l r = record {
    state = r.state;
    address = r.address;
    auth = r.auth;
    debug = r.debug;
    level = r.level;
    static_get = r.static_get;
    static_set = r.static_set;
    initialized = r.initialized;
  }

  pub Observer-logi : (text : String) (args : List Arg) → Observer E V (logi text args)
  Observer-logi text args = record { at = λ s r. (laws.quiet_log s _, Ready-log s _ r) }

  pub Observer-logw : (text : String) (args : List Arg) → Observer E V (logw text args)
  Observer-logw text args = record { at = λ s r. (laws.quiet_log s _, Ready-log s _ r) }

  pub Observer-loge : (text : String) (args : List Arg) → Observer E V (loge text args)
  Observer-loge text args = record { at = λ s r. (laws.quiet_log s _, Ready-log s _ r) }

  pub Observer-read_field :
      (size : ℕ) (object : Ptr) (name : String) → Observer E V (read_field E size object name)
  Observer-read_field size object name = record {
    at = λ s r. elim (Option-cases (field_bytes E size object name s.slots s.world)) [
      | inl fault ↦
          absurd (field_bytes-ne-none E size object name s (laws.narrow _ _ s.world) fault)
      | inr (read, e) ↦ rw (read_field-some E size object name s e) (laws.quiet_refl s, r)
    ];
  }

module _ {W A B : Type 0} {E : Env W} {V : View W} ⦃laws : Probes E V⦄ where
  pub Observer-bind :
      (m : M W A) (k : A → M W B)
      → Observer E V m
      → ((a : A) → Observer E V (k a))
      → Observer E V (m >>= k)
  Observer-bind m k om ok = record {
    at = λ s r. Returns-bind _ _ (m s) k (om.at s r) λ a t u.
        Returns-mono _ _ (k a t) ((ok a).at t u.1)
          λ b t' u'. (laws.quiet_trans s t t' u.0 u'.0, u'.1);
  }

  pub Observer-then :
      (m : M W A) (k : M W B) → Observer E V m → Observer E V k → Observer E V (m >> k)
  Observer-then m k om ok = (Observer-bind m (λ _. k) om (λ _. ok))

module _ {W A B : Type 0} (E : Env W) (V : View W) ⦃laws : Probes E V⦄ where
  pub followed :
      (s : State W) (r : Option (A × State W)) (k : A → M W B)
      → Seen E V s r
      → ((a : A) → Observer E V (k a))
      → Seen E V s (and_then r k)
  followed s none k q o = q
  followed s (some (a, t)) k q o =
      Returns-mono _ _ (k a t) ((o a).at t q.1) λ b t' u. (laws.quiet_trans s t t' q.0 u.0, u.1)

pub ruleset observer_rules = (
  Observer-pure, Observer-gets, Observer-reads, Observer-branch, Observer-logi, Observer-logw,
  Observer-loge, Observer-read_field, Observer-bind, Observer-then,
)
