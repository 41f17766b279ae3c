-- ===== src/Hook/Install.antt =====
-- `install` is all or nothing: the entry is patched and the trampoline is there, or no entry has
-- changed.
use mathlib.Core.Option.{Option}
use old_pixel_gun_3d_online.Base.{
  ◌≡◌, ◌≢◌, refl, ap, ◌∙◌, inl, inr, Bool, true, false, none, some, Ptr, null, is_null, Bool-cases,
  zero_of, nonzero_of,
}
use old_pixel_gun_3d_online.Base.Int.{same_int}
use old_pixel_gun_3d_online.State.{Env, State, Hook, Hooked}
use old_pixel_gun_3d_online.State.Monad.{Returns, Returns-bind, Returns-mono, set_original}
use old_pixel_gun_3d_online.Il2cpp.Metadata.{find_method_info, method_pointer}
use old_pixel_gun_3d_online.Hook.{
  ManagedMethod, install, install_ready, written, ensure_engine, hook_func_addr,
}
use old_pixel_gun_3d_online.Hook.Laws.{Patches, set_original_ne}

module _ {W : Type 0} (E : Env W) (laws : Patches E.platform) where
  open laws use {patched}

  -- The pointers to the other originals are as before.
  abbrev pub OthersKept : Hook → State W → State W → Type 0
  OthersKept original s s' = (h : Hook) → h ≢ original → s'.originals h ≡ s.originals h

  -- A hook is in place at one entry, with the original at hand.
  pub record Installed (replacement : Ptr) (original : Hook) (s s' : State W) : Type 0 where
    pub address : Ptr
    pub entry : address ≢ null
    pub runs : patched s'.world address ≡ replacement
    pub elsewhere : (a : Ptr) → a ≢ address → patched s'.world a ≡ patched s.world a
    pub trampoline : s'.originals original ≢ null
    pub others : OthersKept original s s'

  pub record Refused (original : Hook) (s s' : State W) : Type 0 where
    pub everywhere : (a : Ptr) → patched s'.world a ≡ patched s.world a
    pub others : OthersKept original s s'

  abbrev pub Outcome : Ptr → Hook → State W → Bool → State W → Type 0
  Outcome replacement original s true s' = Installed replacement original s s'
  Outcome replacement original s false s' = Refused original s s'

  pub Outcome-others :
      (replacement : Ptr) (original : Hook) (s : State W) (done : Bool) (s' : State W)
      → Outcome replacement original s done s'
      → OthersKept original s s'
  Outcome-others replacement original s true s' o = o.others
  Outcome-others replacement original s false s' o = o.others

  -- Only the pointer to this original is written.
  written-others :
      (o : Option Ptr) (original : Hook) (originals : Hook → Ptr) (h : Hook)
      → h ≢ original
      → written o original (set_original original null originals) h ≡ originals h
  written-others none original originals h ne = set_original_ne original null originals h ne
  written-others (some p) original originals h ne =
      set_original_ne original p (set_original original null originals) h ne
      ∙ set_original_ne original null originals h ne

  install_ready-Outcome :
      (target : ManagedMethod) (replacement : Ptr) (original : Hook) (required : Bool) (s : State W)
      → Returns
          (install_ready E target replacement original required s)
          (Outcome replacement original s)
  unfolding install_ready hook_func_addr
  install_ready-Outcome target replacement original required s = elim (Bool-cases (is_null mi)) [
    | inl missing ↦ rw missing (elim (Bool-cases required) [
      | inl e ↦ rw e (record { everywhere = λ a. refl; others = λ h ne. refl })
      | inr e ↦ rw e (record { everywhere = λ a. refl; others = λ h ne. refl })
    ])
    | inr found ↦ elim (Bool-cases (is_null address)) [
      | inl empty ↦ rw (found, empty) (record { everywhere = λ a. refl; others = λ h ne. refl })
      | inr entry ↦ elim (Bool-cases (is_null hooked.stub)) [
        | inl failed ↦
            rw (found, entry, failed)
              (record {
                everywhere = laws.hook_fails address replacement s.world (zero_of _ failed);
                others = written-others hooked.orig original s.originals;
              })
        | inr done ↦
            elim (Bool-cases (
              is_null
                (written hooked.orig original (set_original original null s.originals) original))) [
                  | inl no_trampoline ↦
                      rw (found, entry, done, no_trampoline)
                        (record {
                          everywhere =
                              laws.unhook_restores address replacement s.world (nonzero_of _ done);
                          others = written-others hooked.orig original s.originals;
                        })
                  | inr callable ↦
                      rw (found, entry, done, callable)
                        (record {
                          address = address;
                          entry = nonzero_of _ entry;
                          runs = laws.hook_sets address replacement s.world (nonzero_of _ done);
                          elsewhere =
                              laws.hook_others address replacement s.world (nonzero_of _ done);
                          trampoline = nonzero_of _ callable;
                          others = written-others hooked.orig original s.originals;
                        })
                ]
      ]
    ]
  ]
    where
      mi : Ptr
      mi = find_method_info E target.namespaze target.klass target.method target.args_count s

      address : Ptr
      address = method_pointer E mi s

      hooked : Hooked W
      hooked = E.shadowhook_hook_func_addr address replacement s.world

  -- The engine is set up at most once, and sets no hook by that.
  ensure_engine_keeps :
      (s : State W)
      → Returns (ensure_engine E s) (λ _ s'.
        ((a : Ptr) → patched s'.world a ≡ patched s.world a) × (s'.originals ≡ s.originals))
  unfolding ensure_engine
  ensure_engine_keeps s = elim (Bool-cases s.engine.engine_once) [
    | inl ran ↦ rw ran (λ a. refl, refl)
    | inr first ↦ elim (Bool-cases (same_int (E.shadowhook_init s.world).0 E.shadowhook_errno_ok)) [
      | inl good ↦ rw (first, good) (laws.init_keeps s.world, refl)
      | inr bad ↦ rw (first, bad) (laws.init_keeps s.world, refl)
    ]
  ]

  Outcome-from :
      (replacement : Ptr) (original : Hook) (s t : State W) (done : Bool) (s' : State W)
      → ((a : Ptr) → patched t.world a ≡ patched s.world a) × (t.originals ≡ s.originals)
      → Outcome replacement original t done s'
      → Outcome replacement original s done s'
  Outcome-from replacement original s t true s' (same, kept) o = record {
    address = o.address;
    entry = o.entry;
    runs = o.runs;
    elsewhere = λ a ne. o.elsewhere a ne ∙ same a;
    trampoline = o.trampoline;
    others = λ h ne. o.others h ne ∙ ap (λ (f : Hook → Ptr). f h) kept;
  }
  Outcome-from replacement original s t false s' (same, kept) o = record {
    everywhere = λ a. o.everywhere a ∙ same a;
    others = λ h ne. o.others h ne ∙ ap (λ (f : Hook → Ptr). f h) kept;
  }

  -- Under the laws of shadowhook, `install` with a place for the original never faults. If it
  -- returns true, the code at one address runs the replacement, no other entry has changed, and
  -- the pointer to the original is not null. If it returns false, on whatever branch, every entry
  -- runs what it ran before. The other pointers to originals are kept.
  pub install-Outcome :
      (target : ManagedMethod) (replacement : Ptr) (original : Hook) (required : Bool) (s : State W)
      → Returns
          (install E target replacement (some original) required s)
          (Outcome replacement original s)
  unfolding install
  install-Outcome target replacement original required s = elim (Bool-cases (is_null replacement)) [
    | inl nothing ↦ rw nothing (record { everywhere = λ a. refl; others = λ h ne. refl })
    | inr given ↦ rw given (
        Returns-bind _ _ (ensure_engine E s) _ (ensure_engine_keeps s) λ u t kept.
          elim (Bool-cases t.engine.engine_ready) [
            | inr down ↦ simp down (record {
              everywhere = kept.0;
              others = λ h ne. ap (λ (f : Hook → Ptr). f h) kept.1;
            })
            | inl up ↦ simp up (
                Returns-mono _ _ (install_ready E target replacement original required t)
                  (install_ready-Outcome target replacement original required t)
                  λ done s'. Outcome-from replacement original s t done s' kept)
          ])
  ]
