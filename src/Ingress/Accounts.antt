-- ===== src/Ingress/Accounts.antt =====
-- What an ingress promises over any calls (ordered_ingress.rs).
use attyd.Common.{
  ◌≤◌, true, false, none, All, List, [], ◌∷◌, ◌++◌, Result, ok, err, length, ◌≡◌, ◌⊎◌, inl, inr,
  refl, ◌∙◌, arith, Bool-cases, Option-cases,
}
use mathlib.Core.List.{append_assoc}
use attyd.Common.Keyed.{get, erase, get-erase}
use attyd.Ingress.Types.{
  Sdk, CompletionSource, Dispatch, Effect, IngressError, CompletionDisposition, delivered, routes,
  no,
}
use attyd.Ingress.Ops.{intercept, intercepted}
use attyd.Ingress.Calls.{World, waiting, declined, is_event}
use attyd.Ingress.Cases.{complete-cases, complete-none, complete-poisoned}

module _ (S : Sdk) where
  open S use {RequestId, Error}

  intercepted-declined :
      (id : RequestId) (c : Result (IngressError S) CompletionDisposition)
      (route : Result {0, 0} Error Unit)
      → declined (intercepted {S = S} id c route) ≡ false
  intercepted-declined id (ok _) (ok _) = refl
  intercepted-declined id (ok _) (err _) = refl
  intercepted-declined id (err _) (ok _) = refl
  intercepted-declined id (err _) (err _) = refl

module _ {S : Sdk} {Event : Type 0} where
  open S use {RequestId, Value, Error, id_eq}

  -- A response that is intercepted is declined, with nothing changed, if the lock is not poisoned
  -- and its request is not waiting. If the lock is poisoned or the request is waiting, it is not
  -- declined, its waiter gets the result exactly once, after at most one event and also where the
  -- completion fails, the request no longer waits unless the lock is poisoned, and no other
  -- request is touched.
  pub intercept_routes :
      (w : World S Event) (result : Result Error Value) (router : S.Router)
      → let id = S.router_id router in
        let (i, io, answer) = intercept w.ingress w.io (Dispatch.response result router) in
        ((w.ingress.poisoned ≡ false)
          × (waiting w id ≡ false)
          × (i ≡ w.ingress)
          × (io ≡ w.io)
          × (answer ≡ ok (no (Dispatch.response result router) false)))
        ⊎ (((w.ingress.poisoned ≡ true) ⊎ (waiting w id ≡ true))
            × (sent : List (Effect S Event)) × (length sent ≤ 1)
            × All (λ e. is_event e ≡ true) sent
            × (io.effects ≡ w.io.effects ++ (sent ++ routes id result ∷ []))
            × (declined answer ≡ false)
            × (w.ingress.poisoned ≡ false → get id_eq i.pending id ≡ none)
            × ((j : RequestId)
                → id_eq id j ≡ false
                → get id_eq i.pending j ≡ get id_eq w.ingress.pending j))
  unfolding intercept
  intercept_routes w result router =
      let id = S.router_id router in
      let others : (j : RequestId)
          → id_eq id j ≡ false
          → get id_eq (erase id_eq w.ingress.pending id) j ≡ get id_eq w.ingress.pending j =
        λ j ne. get-erase id_eq S.id_eq_iff w.ingress.pending id j ∙ rw ne refl in
      let own : id_eq id id ≡ true = (S.id_eq_iff id id).1 refl in
      let gone : get id_eq (erase id_eq w.ingress.pending id) id ≡ none =
        get-erase id_eq S.id_eq_iff w.ingress.pending id id ∙ rw own refl in
      elim (Bool-cases w.ingress.poisoned) [
        | inl e ↦
            let (p, q, a) =
              complete-poisoned w.ingress w.io id result CompletionSource.response e in
            rw (intercept, a, p, q)
              (inr (
                inl e,
                [],
                omega arith,
                tt,
                refl,
                intercepted-declined S id (err _) (S.route router result),
                λ clear. absurd (ground arith),
                λ j ne. refl,
              ))
        | inr e ↦ elim (Option-cases (get id_eq w.ingress.pending id)) [
          | inl f ↦
              let (p, q, a) =
                complete-none w.ingress w.io id result CompletionSource.response e f in
              rw (intercept, a, p, q) (inl (e, rw f refl, refl, refl, refl))
          | inr (r, f) ↦
              let known : waiting w id ≡ true = rw f refl in
              let (p, c) =
                complete-cases w.ingress w.io id result CompletionSource.response r e f in
              inr (elim c [
                | inl (err', q, a) ↦
                    rw (intercept, a, p, q)
                      (
                        inr known,
                        [],
                        omega arith,
                        tt,
                        refl,
                        intercepted-declined S id (err _) (S.route router result),
                        λ clear. gone,
                        λ j ne. others j ne,
                      )
                | inr (bytes, q, a) ↦
                    rw (intercept, a, p, q)
                      (
                        inr known,
                        _ ∷ [],
                        omega arith,
                        (refl, tt),
                        append_assoc w.io.effects (_ ∷ []) (routes id result ∷ []),
                        intercepted-declined S id (ok delivered) (S.route router result),
                        λ clear. gone,
                        λ j ne. others j ne,
                      )
              ])
        ]
      ]
