-- ===== src/Dispatch/Ready.antt =====
-- The ready list and the queues agree, so no `expect` of the dispatcher fails.
use attyd.Common.{
  ℕ, String, true, not, Option, none, some, List, [], ◌∷◌, ◌++◌, ◌≡◌, refl, str_eq, str_eq_iff,
  str_eq_refl, if◌then◌else◌, retain, nonempty, Option-cases, inl, inr, arith, ◌∙◌,
}
use attyd.Common.Dict.{Dict, lookup, lookup-insert}
use attyd.Dispatch.Types.{
  SessionHandle, handle_eq, Delivery, SessionQueue, Registry, SessionDispatch,
}
use attyd.Dispatch.Ops.{
  drop_guard, drop_queue, drop_sessions, queued, allocate, enqueue, take, new_queue, new_handle,
  pushed, popped,
}

-- The entries of the ready list that bear an identifier.
abbrev pub entries_of : String → List SessionHandle → List SessionHandle
entries_of k = retain (λ h. str_eq h.session_id k)

-- A session is in the ready list once, by its own handle, exactly while its queue holds something.
abbrev pub ReadyAt : {E : Type 0} → String → Option (SessionQueue E) → List SessionHandle → Type 0
ReadyAt k none entries = entries ≡ []
ReadyAt k (some q) entries =
    (q.handle.session_id ≡ k)
    × (q.scheduled ≡ nonempty q.queue)
    × (entries ≡ (if q.scheduled then q.handle ∷ [] else []))

abbrev pub IsReady : {E : Type 0} → Registry E → Type 0
IsReady r = (k : String) → ReadyAt k (lookup k r.sessions) (entries_of k r.ready)

pub entries_of-append :
    (k : String) (xs ys : List SessionHandle)
    → entries_of k (xs ++ ys) ≡ entries_of k xs ++ entries_of k ys
entries_of-append k [] ys = refl
entries_of-append k (x ∷ xs) ys = ground (arith, entries_of-append k xs ys)

-- The entries that `register` drops.
pub entries_of-forget :
    (k id : String) (xs : List SessionHandle)
    → entries_of k (retain (λ h. not (str_eq h.session_id id)) xs)
      ≡ (if str_eq id k then [] else entries_of k xs)
entries_of-forget k id [] = ground arith
entries_of-forget k id (x ∷ xs) = ground (
  arith,
  entries_of-forget k id xs,
  str_eq_iff id k,
  str_eq_iff x.session_id k,
  str_eq_iff x.session_id id,
)

-- The entries that `remove` drops.
pub entries_of-drop :
    (k : String) (handle : SessionHandle) (xs : List SessionHandle)
    → entries_of k (retain (λ h. not (handle_eq h handle)) xs)
      ≡ retain (λ h. not (handle_eq h handle)) (entries_of k xs)
entries_of-drop k handle [] = refl
entries_of-drop k handle (x ∷ xs) = ground (arith, entries_of-drop k handle xs)

module _ {E : Type 0} where
  pub drop_queue-registry :
      (d : SessionDispatch E) (ds : List (Delivery E)) → (drop_queue d ds).registry ≡ d.registry
  unfolding drop_queue drop_guard
  drop_queue-registry d [] = refl
  drop_queue-registry d (x ∷ ds) = drop_queue-registry (drop_guard d x.guard) ds

  pub drop_sessions-registry :
      (d : SessionDispatch E) (m : Dict (SessionQueue E))
      → (drop_sessions d m).registry ≡ d.registry
  unfolding drop_sessions
  drop_sessions-registry d [] = refl
  drop_sessions-registry d ((_, q) ∷ m) =
      drop_sessions-registry (drop_queue d q.queue) m ∙ drop_queue-registry d q.queue

  pub allocate-IsReady :
      (d : SessionDispatch E) (id : String) (n : ℕ)
      → IsReady d.registry
      → IsReady (allocate d id n).0.registry
  unfolding allocate
  allocate-IsReady d id n v k =
      rw (drop_queue-registry _ (queued (lookup id d.registry.sessions))) (
        ground (
          arith,
          v k,
          lookup-insert id k (new_queue (new_handle d id n)) d.registry.sessions,
          entries_of-forget k id d.registry.ready,
          str_eq_iff id k,
        ))

  pub nonempty-snoc : (ds : List (Delivery E)) (x : Delivery E) → nonempty (ds ++ x ∷ []) ≡ true
  nonempty-snoc [] x = refl
  nonempty-snoc (d ∷ ds) x = refl

  pub enqueue-IsReady :
      (r : Registry E) (q : SessionQueue E) (delivery : Delivery E)
      → IsReady r
      → lookup delivery.handle.session_id r.sessions ≡ some q
      → q.handle ≡ delivery.handle
      → IsReady (enqueue r q delivery)
  unfolding enqueue
  enqueue-IsReady r q delivery v e h k = ground (
    arith,
    v k,
    lookup-insert delivery.handle.session_id k (pushed q delivery) r.sessions,
    entries_of-append k r.ready (delivery.handle ∷ []),
    str_eq_iff delivery.handle.session_id k,
    nonempty-snoc q.queue delivery,
  )

  -- The head of the ready list is registered, by this handle, and has something queued.
  pub record Scheduled (r : Registry E) (handle : SessionHandle) (q : SessionQueue E) : Type 0 where
    pub found : lookup handle.session_id r.sessions ≡ some q
    pub same : q.handle ≡ handle
    pub scheduled : q.scheduled ≡ true
    pub some_queued : nonempty q.queue ≡ true

  pub ready-Scheduled :
      (r : Registry E) (handle : SessionHandle) (rest : List SessionHandle)
      → IsReady r
      → r.ready ≡ handle ∷ rest
      → (q : SessionQueue E) × Scheduled r handle q × (entries_of handle.session_id rest ≡ [])
  ready-Scheduled r handle rest v e =
      let at = v handle.session_id in
      let own = str_eq_refl handle.session_id in
      elim (Option-cases (lookup handle.session_id r.sessions)) [
        | inl missing ↦ absurd (ground arith)
        | inr (q, found) ↦ (
          q,
          record {
            found = found;
            same = ground arith;
            scheduled = ground arith;
            some_queued = ground arith;
          },
          ground arith,
        )
      ]

  pub take-IsReady :
      (d : SessionDispatch E) (handle : SessionHandle) (rest : List SessionHandle)
      (q : SessionQueue E) (delivery : Delivery E) (more : List (Delivery E))
      → IsReady d.registry
      → d.registry.ready ≡ handle ∷ rest
      → Scheduled d.registry handle q
      → entries_of handle.session_id rest ≡ []
      → IsReady (take d handle rest q delivery more).0.registry
  unfolding take
  take-IsReady d handle rest q delivery more v e sch alone k = ground (
    arith,
    v k,
    lookup-insert handle.session_id k (popped q more) d.registry.sessions,
    entries_of-append k rest (handle ∷ []),
    str_eq_iff handle.session_id k,
  )

  pub rotate-IsReady :
      (r : Registry E) (handle : SessionHandle) (rest : List SessionHandle)
      → IsReady r
      → r.ready ≡ handle ∷ rest
      → entries_of handle.session_id rest ≡ []
      → IsReady (record r { ready = rest ++ handle ∷ [] })
  rotate-IsReady r handle rest v e alone k =
      ground (arith, v k, entries_of-append k rest (handle ∷ []), str_eq_iff handle.session_id k)
