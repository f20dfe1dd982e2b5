-- ===== src/Dispatch/Revoked.antt =====
-- A handle that has been removed is never valid again.
use attyd.Common.{
  ℕ, ◌+◌, ◌≤◌, String, false, Option, none, some, List, [], ◌∷◌, ◌≡◌, ◌≢◌, refl, sym, ap, subst,
  inl, inr, str_eq, if◌then◌else◌, ok, arith, Bool-cases, str_eq_iff,
}
use attyd.Common.Dict.{lookup, lookup-remove}
use attyd.Dispatch.Types.{TrafficClass, SessionHandle, SessionQueue, Registry, SessionDispatch}
use attyd.Dispatch.Ops.{
  returned, new, queued, allocate, detach, validate_handle, register, try_route, remove,
}
use attyd.Dispatch.Ready.{drop_queue-registry, ReadyAt, entries_of}
use attyd.Dispatch.Safety.{step-Sound, run-Sound, start-Sound}
use attyd.Dispatch.Sound.{Sound, validate_handle-found, remove-ok}
use attyd.Dispatch.System.{
  World, Action, registers, routes, takes, finishes, removes, closes, step, run, start,
}
use attyd.Dispatch.Handles.{
  HandleAt, Handles, register-case, allocate-Handles, quiet-Handles, HandleAt-none,
}
use attyd.Dispatch.Allocation.{next, detach-next, allocate-next, is_registration, quiet-next}

module _ {E : Type 0} where
  map-Handles :
      {P Q : SessionHandle → Type 0} (r : Registry E)
      → ((g : SessionHandle) → P g → Q g)
      → Handles P r
      → Handles Q r
  map-Handles {P} {Q} r f v k = HandleAt-map (lookup k r.sessions) (v k)
    where
      HandleAt-map : (o : Option (SessionQueue E)) → HandleAt P o → HandleAt Q o
      HandleAt-map none h = tt
      HandleAt-map (some q) h = f q.handle h

  -- Every registered queue was allocated.
  abbrev Allocated : SessionDispatch E → Type 0
  Allocated d = Handles (λ g. g.allocation ≤ next d) d.registry

  -- The handle was allocated and is no longer registered.
  record Past (h : SessionHandle) (d : SessionDispatch E) : Type 0 where
    old : h.allocation ≤ next d
    gone : Handles (λ g. g ≢ h) d.registry

  not_registration :
      (a : Action E) → is_registration a ≡ false → (id : String) (n : ℕ) → a ≢ registers id n
  not_registration a o id n e = ground (arith, ap is_registration e)

  register-Allocated :
      (d : SessionDispatch E) (id : String) (n : ℕ) → Allocated d → Allocated (register d id n).0
  register-Allocated d id n v = elim (register-case d id n) [
    | inl e ↦ subst Allocated (sym e) v
    | inr e ↦ subst Allocated (sym e) (
        subst (λ m. Handles (λ g. g.allocation ≤ m) (allocate d id n).0.registry)
          (sym (allocate-next d id n))
          (allocate-Handles (λ g. g.allocation ≤ next d + 1) d id n
            (map-Handles d.registry (λ g h. omega arith) v) (omega arith)))
  ]

  register-Past :
      (h : SessionHandle) (d : SessionDispatch E) (id : String) (n : ℕ)
      → Past h d
      → Past h (register d id n).0
  register-Past h d id n v = elim (register-case d id n) [
    | inl e ↦ subst (Past h) (sym e) v
    | inr e ↦ subst (Past h) (sym e) (record {
      old = omega (arith, allocate-next d id n, v.old);
      gone =
          allocate-Handles (λ g. g ≢ h) d id n v.gone
            (λ q. omega (arith, ap (λ g. g.allocation) q, v.old));
    })
  ]

  quiet-Allocated :
      (w : World E) (a : Action E)
      → Sound w.dispatch
      → is_registration a ≡ false
      → Allocated w.dispatch
      → Allocated (step w a).0.dispatch
  quiet-Allocated w a s o v =
      subst (λ m. Handles (λ g. g.allocation ≤ m) (step w a).0.dispatch.registry)
        (sym (quiet-next w a s o))
        (quiet-Handles (λ g. g.allocation ≤ next w.dispatch) w a s (not_registration a o) v)

  step-Allocated :
      (w : World E) (a : Action E)
      → Sound w.dispatch
      → Allocated w.dispatch
      → Allocated (step w a).0.dispatch
  unfolding step
  step-Allocated w (registers id n) s v = register-Allocated w.dispatch id n v
  step-Allocated w (routes handle class bytes event) s v =
      quiet-Allocated w (routes handle class bytes event) s refl v
  step-Allocated w takes s v = quiet-Allocated w takes s refl v
  step-Allocated w (finishes i) s v = quiet-Allocated w (finishes i) s refl v
  step-Allocated w (removes handle) s v = quiet-Allocated w (removes handle) s refl v
  step-Allocated w closes s v = quiet-Allocated w closes s refl v

  quiet-Past :
      (h : SessionHandle) (w : World E) (a : Action E)
      → Sound w.dispatch
      → is_registration a ≡ false
      → Past h w.dispatch
      → Past h (step w a).0.dispatch
  quiet-Past h w a s o v = record {
    old = omega (arith, quiet-next w a s o, v.old);
    gone = quiet-Handles (λ g. g ≢ h) w a s (not_registration a o) v.gone;
  }

  step-Past :
      (h : SessionHandle) (w : World E) (a : Action E)
      → Sound w.dispatch
      → Past h w.dispatch
      → Past h (step w a).0.dispatch
  unfolding step
  step-Past h w (registers id n) s v = register-Past h w.dispatch id n v
  step-Past h w (routes handle class bytes event) s v =
      quiet-Past h w (routes handle class bytes event) s refl v
  step-Past h w takes s v = quiet-Past h w takes s refl v
  step-Past h w (finishes i) s v = quiet-Past h w (finishes i) s refl v
  step-Past h w (removes handle) s v = quiet-Past h w (removes handle) s refl v
  step-Past h w closes s v = quiet-Past h w closes s refl v

  run-Allocated :
      (w : World E) (actions : List (Action E))
      → Sound w.dispatch
      → Allocated w.dispatch
      → Allocated (run w actions).dispatch
  unfolding run
  run-Allocated w [] s v = v
  run-Allocated w (a ∷ actions) s v =
      run-Allocated (step w a).0 actions (step-Sound w a s) (step-Allocated w a s v)

  run-Past :
      (h : SessionHandle) (w : World E) (actions : List (Action E))
      → Sound w.dispatch
      → Past h w.dispatch
      → Past h (run w actions).dispatch
  unfolding run
  run-Past h w [] s v = v
  run-Past h w (a ∷ actions) s v =
      run-Past h (step w a).0 actions (step-Sound w a s) (step-Past h w a s v)

  Past-invalid :
      (h : SessionHandle) (d : SessionDispatch E) → Past h d → validate_handle d h ≢ ok tt
  Past-invalid h d v e =
      let (q, found, same) = validate_handle-found d h e in
      subst (HandleAt (λ g. g ≢ h)) found (v.gone h.session_id) same

  elsewhere :
      (h : SessionHandle) (k : String) (o : Option (SessionQueue E)) (entries : List SessionHandle)
      → ReadyAt k o entries
      → HandleAt (λ g. g ≢ h) (if str_eq h.session_id k then none else o)
  elsewhere h k none entries r = HandleAt-none (λ g. g ≢ h) (str_eq h.session_id k) none tt
  elsewhere h k (some q) entries r = elim (Bool-cases (str_eq h.session_id k)) [
    | inl e ↦ rw e tt
    | inr e ↦
        rw e (λ same. ground (arith, ap (λ g. g.session_id) same, r.0, str_eq_iff h.session_id k))
  ]

  detach-Past :
      (d : SessionDispatch E) (h : SessionHandle)
      → Sound d
      → Allocated d
      → validate_handle d h ≡ ok tt
      → Past h (detach d h)
  unfolding detach
  detach-Past d h s v valid =
      let (q, found, same) = validate_handle-found d h valid in
      let bound = subst (HandleAt (λ g. g.allocation ≤ next d)) found (v h.session_id) in
      record {
        old = omega (arith, detach-next d h, ap (λ g. g.allocation) same, bound);
        gone = λ k. rw (drop_queue-registry _ (queued (lookup h.session_id d.registry.sessions))) (
            subst (HandleAt (λ g. g ≢ h)) (sym (lookup-remove h.session_id k d.registry.sessions)) (
              elsewhere h k (lookup k d.registry.sessions) (entries_of k d.registry.ready)
                (s.ready k)));
      }

  remove-valid :
      (d : SessionDispatch E) (h : SessionHandle)
      → (remove d h).1 ≡ ok tt
      → validate_handle d h ≡ ok tt
  unfolding remove
  remove-valid d h e = ground arith

  try_route-valid :
      (d : SessionDispatch E) (h : SessionHandle) (class : TrafficClass) (bytes : ℕ) (event : E)
      → (try_route d h class bytes event).1 ≡ returned (ok tt)
      → validate_handle d h ≡ ok tt
  unfolding try_route
  try_route-valid d h class bytes event e = ground arith

  remove-Past :
      (w : World E) (h : SessionHandle)
      → Sound w.dispatch
      → Allocated w.dispatch
      → (remove w.dispatch h).1 ≡ ok tt
      → Past h (step w (removes h)).0.dispatch
  unfolding step
  remove-Past w h s v e =
      let valid = remove-valid w.dispatch h e in
      rw (remove-ok w.dispatch h s.lock valid) (detach-Past w.dispatch h s v valid)

start-Allocated :
    (E : Type 0) (epoch : String) (identity : ℕ) → Allocated (start {E = E} epoch identity).dispatch
unfolding start new lookup
start-Allocated E epoch identity k = tt

module _ {E : Type 0} where
  -- Once a handle has been removed from a dispatcher, whatever calls come before and after, it is
  -- never valid again: no event is routed by it, and it is not removed a second time.
  pub removed_handle :
      (epoch : String) (identity : ℕ) (before : List (Action E)) (h : SessionHandle)
      (after : List (Action E)) (class : TrafficClass) (bytes : ℕ) (event : E)
      → (remove (run (start epoch identity) before).dispatch h).1 ≡ ok tt
      → let w = run (step (run (start epoch identity) before) (removes h)).0 after in
        (validate_handle w.dispatch h ≢ ok tt)
        × ((try_route w.dispatch h class bytes event).1 ≢ returned (ok tt))
        × ((remove w.dispatch h).1 ≢ ok tt)
  removed_handle epoch identity before h after class bytes event e =
      let w₀ = start epoch identity in
      let s = run-Sound w₀ before (start-Sound epoch identity) in
      let v =
        run-Allocated w₀ before (start-Sound epoch identity) (start-Allocated E epoch identity) in
      let past =
        run-Past h (step (run w₀ before) (removes h)).0 after
          (step-Sound (run w₀ before) (removes h) s) (remove-Past (run w₀ before) h s v e) in
      let invalid = Past-invalid h _ past in
      (
        invalid,
        λ q. invalid (try_route-valid _ h class bytes event q),
        λ q. invalid (remove-valid _ h q),
      )
