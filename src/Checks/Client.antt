-- ===== src/Checks/Client.antt =====
-- A client that connects, and disconnects again if that fails, in the toy runtime.
use old_pixel_gun_3d_online.Base.{
  ℕ, Bool, refl, sym, ap, inl, inr, true, false, List, ◌==◌, Ptr, Bool-cases,
}
use old_pixel_gun_3d_online.State.{State, Value}
use old_pixel_gun_3d_online.Photon.Wrappers.{Ends}
use old_pixel_gun_3d_online.Photon.Hooks.Client.{
  AllAllowed, Client, finish, ask, hooked, original, run, call_connect_using_settings,
  call_disconnect,
}
use old_pixel_gun_3d_online.Photon.Hooks.Client.Refines.{Alike, Sees, run-hooked-Ends}
use old_pixel_gun_3d_online.Checks.Toy.{World, start}
use old_pixel_gun_3d_online.Checks.Tracing.{traced, view, probes, start-Ready, code_at}

code-Alike :
    (p : Ptr) (args : List Value) (s t : State World)
    → view.Quiet s t
    → Alike traced view (code_at p args s) (code_at p args t)
code-Alike p args s t quiet = elim (Bool-cases (p == 91)) [
  | inl e ↦ rw e (refl, quiet)
  | inr e ↦
      rw e
        (refl, (ap (λ (w : World). record w { host = 1; region = 0; app = 100 }) quiet.0, quiet.1))
]

sees : Sees traced view
sees = record {
  originals = λ s t quiet. sym quiet.1;
  voids = code-Alike;
  bools = λ fn args s t quiet. (refl, quiet);
  ptrs = λ fn args s t quiet. (refl, quiet);
}

abbrev careful : Client ℕ
careful =
    ask (call_connect_using_settings 6 9)
      λ ok. elim ok [ true ↦ finish 1 | false ↦ ask (call_disconnect 9) λ u. finish 0 ]

careful_allowed :
    (ok : Bool)
    → AllAllowed Unit {A = ℕ}
        (elim ok [ true ↦ finish 1 | false ↦ ask (call_disconnect 9) λ u. finish 0 ])
careful_allowed true = tt
careful_allowed false = (tt, λ u. tt)

run-hooked-Ends_example :
    Ends traced view (run (original traced) careful start) (run (hooked traced) careful start)
run-hooked-Ends_example =
    run-hooked-Ends traced view sees careful start start (tt, careful_allowed) start-Ready
      (refl, refl)
