-- ===== src/History/Loads.antt =====
-- A load from its start to its commit.
use attyd.Common.{
  ℕ, String, false, none, some, List, [], ◌∷◌, ◌≡◌, refl, ap, sym, subst, ◌∙◌, Result, ok, err,
  ◌>>=◌, str_eq_refl, Result-cases, inl, inr, arith, max,
}
use attyd.Json.{Json}
use attyd.Fold.{RuntimeStateError}
use attyd.Session.Types.{HistoryCacheError, invalid_replay}
use attyd.History.Reference.{normalize_history_updates}
use attyd.History.Builder.{HistoryBuilder, empty_builder, append, append_all}
use attyd.History.Equivalence.{append_all-normalize}
use attyd.History.Keys.{SessionKey, find, put, remove_key, find-put, find-remove_key, key_eq_refl}
use attyd.History.Candidate.{ReplayData, fresh_replay, take_history, replay_append}
use attyd.History.Cache.{
  Encoder, HistorySnapshot, HistoryCache, candidate, begin_candidate, append_candidate,
  install_snapshot, commit_candidate, peek, write_replay,
}

module _ {J : Json} (n : Encoder J) (key : SessionKey) (attempt : String) where
  open J use {Value}

  -- The updates of a replay, in order, whatever the answers.
  unfoldable pub append_replay : HistoryCache J → List Value → HistoryCache J
  append_replay c [] = c
  append_replay c (u ∷ us) = append_replay (append_candidate n c key attempt u).0 us

  -- The data of a load after some updates: the builder's history, or invalid for good.
  abbrev Holds : ReplayData J → Result RuntimeStateError (HistoryBuilder J) → Type 0
  Holds d (ok b) = (d.sealed ≡ false) × (d.invalid ≡ none) × (d.history ≡ b)
  Holds d (err _) = (d.sealed ≡ false) × (d.invalid ≡ some invalid_replay)

  record Loading (c : HistoryCache J) (a : ℕ) (r : Result RuntimeStateError (HistoryBuilder J))
      (c₀ : HistoryCache J) : Type 0 where
    found : find key c.candidates ≡ some (record { attempt_id = attempt; replay = a })
    holds : Holds (c.replays a) r
    entries : c.entries ≡ c₀.entries

  append-at :
      (c c₀ : HistoryCache J) (a : ℕ) {r : Result RuntimeStateError (HistoryBuilder J)} (u : Value)
      → Loading c a r c₀
      → (append_candidate n c key attempt u).0
        ≡ write_replay c a (replay_append J n.value_bytes (c.replays a) u).0
  unfolding append_candidate candidate
  append-at c c₀ a u v = ground (arith, v.found, str_eq_refl attempt)

  written :
      (c c₀ : HistoryCache J) (a : ℕ) (d : ReplayData J)
      {r s : Result RuntimeStateError (HistoryBuilder J)}
      → Loading c a r c₀
      → Holds d s
      → Loading (write_replay c a d) a s c₀
  written c c₀ a d {r} {s} v h = record {
    found = v.found;
    holds = subst (λ d. Holds d s) (ground arith) h;
    entries = v.entries;
  }

  replay_append-Holds :
      (d : ReplayData J) (b : HistoryBuilder J) (u : Value)
      → Holds d (ok b)
      → Holds (replay_append J n.value_bytes d u).0 (append J n.value_bytes b u)
  unfolding replay_append
  replay_append-Holds d b u h = elim (Result-cases (append J n.value_bytes b u)) [
    | inl (b', q) ↦ rw q (ground (arith, h))
    | inr (e, q) ↦ rw q (ground (arith, h))
  ]

  append_candidate-ok :
      (c c₀ : HistoryCache J) (a : ℕ) (b : HistoryBuilder J) (u : Value)
      → Loading c a (ok b) c₀
      → Loading (append_candidate n c key attempt u).0 a (append J n.value_bytes b u) c₀
  append_candidate-ok c c₀ a b u v =
      subst (λ c'. Loading c' a (append J n.value_bytes b u) c₀) (sym (append-at c c₀ a u v))
        (written c c₀ a (replay_append J n.value_bytes (c.replays a) u).0 v
          (replay_append-Holds (c.replays a) b u v.holds))

  append_candidate-err :
      (c c₀ : HistoryCache J) (a : ℕ) (e : RuntimeStateError) (u : Value)
      → Loading c a (err e) c₀
      → Loading (append_candidate n c key attempt u).0 a (err e) c₀
  unfolding append_candidate candidate replay_append
  append_candidate-err c c₀ a e u v = record {
    found = ground (arith, v.found);
    holds = ground (arith, v.found, v.holds, str_eq_refl attempt);
    entries = ground (arith, v.entries);
  }

  append_replay-err :
      (c c₀ : HistoryCache J) (a : ℕ) (e : RuntimeStateError) (us : List Value)
      → Loading c a (err e) c₀
      → Loading (append_replay c us) a (err e) c₀
  unfolding append_replay
  append_replay-err c c₀ a e [] v = v
  append_replay-err c c₀ a e (u ∷ us) v =
      append_replay-err (append_candidate n c key attempt u).0 c₀ a e us
        (append_candidate-err c c₀ a e u v)

  append_replay-ok :
      (c c₀ : HistoryCache J) (a : ℕ) (b : HistoryBuilder J) (us : List Value)
      → Loading c a (ok b) c₀
      → Loading (append_replay c us) a (append_all J n.value_bytes b us) c₀
  unfolding append_replay append_all
  append_replay-ok c c₀ a b [] v = v
  append_replay-ok c c₀ a b (u ∷ us) v =
      let next = append_candidate-ok c c₀ a b u v in
      elim (Result-cases (append J n.value_bytes b u)) [
        | inl (b', q) ↦
            rw q
              (append_replay-ok (append_candidate n c key attempt u).0 c₀ a b' us (rw (sym q) next))
        | inr (e, q) ↦
            rw q
              (append_replay-err (append_candidate n c key attempt u).0 c₀ a e us (rw (sym q) next))
      ]

  begin-Loading :
      (c : HistoryCache J)
      → find key c.candidates ≡ none
      → Loading (begin_candidate c key attempt).0 c.next_replay (ok (empty_builder J)) c
  unfolding begin_candidate fresh_replay
  begin-Loading c free = record {
    found = ground (
      arith,
      free,
      key_eq_refl key,
      find-put key key (record { attempt_id = attempt; replay = c.next_replay }) c.candidates,
    );
    holds = ground (arith, free);
    entries = ground (arith, free);
  }

  -- What the commit of a load gives, by the fold of its updates.
  abbrev pub LoadOutcome :
      Result RuntimeStateError (List Value)
      → HistoryCache J
      → HistoryCache J × Result HistoryCacheError (HistorySnapshot J)
      → Type 0
  LoadOutcome (ok updates) c (c', r) =
      (s : HistorySnapshot J) × (r ≡ ok s)
      × (s.updates ≡ updates)
      × (peek c' key ≡ some s)
      × (find key c'.candidates ≡ none)
  LoadOutcome (err _) c (c', r) = (r ≡ err invalid_replay) × (c'.entries ≡ c.entries)

  commit-err :
      (c c₀ : HistoryCache J) (a : ℕ) (e : RuntimeStateError)
      → Loading c a (err e) c₀
      → LoadOutcome (err e) c₀ (commit_candidate n c key attempt)
  unfolding commit_candidate candidate take_history
  commit-err c c₀ a e v = (
    ground (arith, v.found, v.holds, str_eq_refl attempt),
    ground (arith, v.found, v.holds, v.entries, str_eq_refl attempt),
  )

  candidate-found :
      (c c₀ : HistoryCache J) (a : ℕ) {r : Result RuntimeStateError (HistoryBuilder J)}
      → Loading c a r c₀
      → candidate c key attempt ≡ ok a
  unfolding candidate
  candidate-found c c₀ a v = ground (arith, v.found, str_eq_refl attempt)

  taken :
      (d : ReplayData J) (b : HistoryBuilder J)
      → Holds d (ok b)
      → (take_history J d).1 ≡ ok (b.updates, max b.bytes 2)
  unfolding take_history
  taken d b h = ground (arith, h)

  -- The commit installs what the builder holds.
  commit-installs :
      (c c₀ : HistoryCache J) (a : ℕ) (b : HistoryBuilder J)
      → Loading c a (ok b) c₀
      → (c₁ : HistoryCache J) × (bytes : ℕ) × (find key c₁.candidates ≡ none)
        × (commit_candidate n c key attempt ≡ (
          (install_snapshot n c₁ key b.updates bytes).0,
          ok (install_snapshot n c₁ key b.updates bytes).1,
        ))
  unfolding commit_candidate candidate take_history
  commit-installs c c₀ a b v = (
    record (write_replay c a (take_history J (c.replays a)).0) {
      candidates = remove_key key c.candidates;
    },
    max b.bytes 2,
    ground (arith, find-remove_key key key c.candidates, key_eq_refl key),
    rw (candidate-found c c₀ a v, taken (c.replays a) b v.holds, commit_candidate) refl,
  )

  install-peek :
      (c : HistoryCache J) (updates : List Value) (bytes : ℕ)
      → (peek (install_snapshot n c key updates bytes).0 key
          ≡ some (install_snapshot n c key updates bytes).1)
        × ((install_snapshot n c key updates bytes).0.candidates ≡ c.candidates)
        × ((install_snapshot n c key updates bytes).1.updates ≡ updates)
  unfolding peek install_snapshot put find
  install-peek c updates bytes = (ground (arith, key_eq_refl key), refl, refl)

  commit-ok :
      (c c₀ : HistoryCache J) (a : ℕ) (b : HistoryBuilder J)
      → Loading c a (ok b) c₀
      → LoadOutcome (ok b.updates) c₀ (commit_candidate n c key attempt)
  commit-ok c c₀ a b v =
      let (c₁, bytes, gone, eq) = commit-installs c c₀ a b v in
      let (peeked, kept, same) = install-peek c₁ b.updates bytes in
      subst (LoadOutcome (ok b.updates) c₀) (sym eq) (
        (install_snapshot n c₁ key b.updates bytes).1,
        refl,
        same,
        peeked,
        ap (find key) kept ∙ gone,
      )

  outcome :
      (c c₀ : HistoryCache J) (a : ℕ) (r : Result RuntimeStateError (HistoryBuilder J))
      → Loading c a r c₀
      → LoadOutcome (r >>= λ b. ok b.updates) c₀ (commit_candidate n c key attempt)
  outcome c c₀ a (ok b) v = commit-ok c c₀ a b v
  outcome c c₀ a (err e) v = commit-err c c₀ a e v

  -- A load that begins where the session has none, replays any updates and commits: if the fold of
  -- the updates succeeds, the commit gives a snapshot of that history, which the cache then shows,
  -- and the load is over; otherwise the commit is refused as an invalid replay, and no cached
  -- history has changed.
  pub load_commits :
      (c : HistoryCache J) (us : List Value)
      → find key c.candidates ≡ none
      → LoadOutcome
          (normalize_history_updates J us)
          c
          (commit_candidate n (append_replay (begin_candidate c key attempt).0 us) key attempt)
  load_commits c us free =
      subst
        (λ r.
          LoadOutcome r c
            (commit_candidate n (append_replay (begin_candidate c key attempt).0 us) key attempt))
        (append_all-normalize J n.value_bytes us)
        (outcome (append_replay (begin_candidate c key attempt).0 us) c c.next_replay
          (append_all J n.value_bytes (empty_builder J) us)
          (append_replay-ok (begin_candidate c key attempt).0 c c.next_replay (empty_builder J) us
            (begin-Loading c free)))
