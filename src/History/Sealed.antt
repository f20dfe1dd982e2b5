-- ===== src/History/Sealed.antt =====
-- A loader that keeps the data of a load after its end can no longer write there.
use attyd.Common.{
  ◌<◌, List, [], ◌∷◌, sym, ◌∙◌, ℕ, String, true, some, ◌≡◌, refl, ap, subst, ok, err, Option-cases,
  inl, inr, arith,
}
use attyd.Json.{Json}
use attyd.Session.Types.{HistoryCacheError, attempt_mismatch}
use attyd.History.Keys.{SessionKey, find}
use attyd.History.Candidate.{ReplayData, take_history, discard, poison, seal, replay_append}
use attyd.History.Cache.{
  Encoder, HistorySnapshot, HistoryCache, candidate, install_snapshot, commit_candidate,
  abort_candidate, remove, begin_candidate, append_candidate, poison_candidate,
  append_committed_updates, snapshot, write_replay,
}

module _ (J : Json) where
  open J use {Value}

  -- The calls of the cache, and those of the loaders on the data that they hold (`append`, `poison`
  -- and `seal` of `ReplayCandidate`), by its address.
  pub data Call : Type 0 where
    begins commits aborts : SessionKey → String → Call
    appends : SessionKey → String → Value → Call
    poisons : SessionKey → String → HistoryCacheError → Call
    extends : SessionKey → List Value → Call
    reads removes : SessionKey → Call
    writes : ℕ → Value → Call
    spoils : ℕ → HistoryCacheError → Call
    seals : ℕ → Call

module _ {J : Json} where
  open J use {Value}

  sealed-refuses :
      (value_bytes : Value → ℕ) (d : ReplayData J) (u : Value)
      → d.sealed ≡ true
      → replay_append J value_bytes d u ≡ (d, err attempt_mismatch)
  unfolding replay_append
  sealed-refuses value_bytes d u h = rw (h, replay_append) refl

  commit-sealed :
      (n : Encoder J) (c : HistoryCache J) (key : SessionKey) (attempt : String) (a : ℕ)
      {s : HistorySnapshot J}
      → candidate c key attempt ≡ ok a
      → (commit_candidate n c key attempt).1 ≡ ok s
      → ((commit_candidate n c key attempt).0.replays a).sealed ≡ true
  unfolding commit_candidate take_history install_snapshot
  commit-sealed n c key attempt a h e = ground arith

  abort-sealed :
      (c : HistoryCache J) (key : SessionKey) (attempt : String) (a : ℕ)
      → candidate c key attempt ≡ ok a
      → ((abort_candidate c key attempt).0.replays a).sealed ≡ true
  unfolding abort_candidate discard
  abort-sealed c key attempt a h = ground arith

  candidate-find :
      (c : HistoryCache J) (key : SessionKey) (attempt : String) (a : ℕ)
      → candidate c key attempt ≡ ok a
      → (load : _) × (find key c.candidates ≡ some load) × (load.replay ≡ a)
  unfolding candidate
  candidate-find c key attempt a h = elim (Option-cases (find key c.candidates)) [
    | inl e ↦ absurd (ground arith)
    | inr (load, e) ↦ (load, e, ground arith)
  ]

  remove-sealed :
      (c : HistoryCache J) (key : SessionKey) (attempt : String) (a : ℕ)
      → candidate c key attempt ≡ ok a
      → ((remove c key).replays a).sealed ≡ true
  unfolding remove discard
  remove-sealed c key attempt a h =
      let (load, found, same) = candidate-find c key attempt a h in ground arith

  -- The operations that end the load of a key whose data is at `a`, and the cache after them.
  pub data Ends (n : Encoder J) (c : HistoryCache J) (key : SessionKey) (a : ℕ)
      (c' : HistoryCache J) : Type 0 where
    committed :
        (attempt : String) (s : HistorySnapshot J)
        → candidate c key attempt ≡ ok a
        → commit_candidate n c key attempt ≡ (c', ok s)
        → Ends n c key a c'
    aborted :
        (attempt : String)
        → candidate c key attempt ≡ ok a
        → abort_candidate c key attempt ≡ (c', ok tt)
        → Ends n c key a c'
    removed :
        (attempt : String) → candidate c key attempt ≡ ok a → remove c key ≡ c' → Ends n c key a c'

  Ends-sealed :
      (n : Encoder J) (c : HistoryCache J) (key : SessionKey) (a : ℕ) (c' : HistoryCache J)
      → Ends n c key a c'
      → (c'.replays a).sealed ≡ true
  Ends-sealed n c key a c' (committed attempt s h e) =
      subst (λ d. (d.replays a).sealed ≡ true) (ap (λ r. r.0) e)
        (commit-sealed n c key attempt a h (ap (λ r. r.1) e))
  Ends-sealed n c key a c' (aborted attempt h e) =
      subst (λ d. (d.replays a).sealed ≡ true) (ap (λ r. r.0) e) (abort-sealed c key attempt a h)
  Ends-sealed n c key a c' (removed attempt h e) =
      subst (λ d. (d.replays a).sealed ≡ true) e (remove-sealed c key attempt a h)

  unfoldable pub step : Encoder J → HistoryCache J → Call J → HistoryCache J
  step n c (begins key attempt) = (begin_candidate c key attempt).0
  step n c (commits key attempt) = (commit_candidate n c key attempt).0
  step n c (aborts key attempt) = (abort_candidate c key attempt).0
  step n c (appends key attempt u) = (append_candidate n c key attempt u).0
  step n c (poisons key attempt e) = (poison_candidate c key attempt e).0
  step n c (extends key suffix) = (append_committed_updates n c key suffix).0
  step n c (reads key) = (snapshot c key).0
  step n c (removes key) = remove c key
  step n c (writes b u) = write_replay c b (replay_append J n.value_bytes (c.replays b) u).0
  step n c (spoils b e) = write_replay c b (poison J (c.replays b) e)
  step n c (seals b) = write_replay c b (seal J (c.replays b))

  unfoldable pub run : Encoder J → HistoryCache J → List (Call J) → HistoryCache J
  run n c [] = c
  run n c (x ∷ xs) = run n (step n c x) xs

  -- The data at `a` is sealed, and the address is one that a load has had.
  abbrev SealedAt : ℕ → HistoryCache J → Type 0
  SealedAt a c = ((c.replays a).sealed ≡ true) × (a < c.next_replay)

  step-SealedAt :
      (n : Encoder J) (a : ℕ) (c : HistoryCache J) (x : Call J)
      → SealedAt a c
      → SealedAt a (step n c x)
  unfolding step begin_candidate commit_candidate abort_candidate append_candidate poison_candidate
      append_committed_updates snapshot remove install_snapshot take_history discard poison seal
      replay_append candidate
  step-SealedAt n a c (begins key attempt) h = ground arith
  step-SealedAt n a c (commits key attempt) h = ground arith
  step-SealedAt n a c (aborts key attempt) h = ground arith
  step-SealedAt n a c (appends key attempt u) h = ground arith
  step-SealedAt n a c (poisons key attempt e) h = ground arith
  step-SealedAt n a c (extends key suffix) h = ground arith
  step-SealedAt n a c (reads key) h = ground arith
  step-SealedAt n a c (removes key) h = ground arith
  step-SealedAt n a c (writes b u) h = ground arith
  step-SealedAt n a c (spoils b e) h = ground arith
  step-SealedAt n a c (seals b) h = ground arith

  run-SealedAt :
      (n : Encoder J) (a : ℕ) (c : HistoryCache J) (xs : List (Call J))
      → SealedAt a c
      → SealedAt a (run n c xs)
  unfolding run
  run-SealedAt n a c [] h = h
  run-SealedAt n a c (x ∷ xs) h = run-SealedAt n a (step n c x) xs (step-SealedAt n a c x h)

  Ends-next_replay :
      (n : Encoder J) (c : HistoryCache J) (key : SessionKey) (a : ℕ) (c' : HistoryCache J)
      → Ends n c key a c'
      → c'.next_replay ≡ c.next_replay
  unfolding commit_candidate abort_candidate remove install_snapshot take_history candidate
  Ends-next_replay n c key a c' (committed attempt s h e) =
      sym (ap (λ r. r.0.next_replay) e) ∙ ground arith
  Ends-next_replay n c key a c' (aborted attempt h e) =
      sym (ap (λ r. r.0.next_replay) e) ∙ ground arith
  Ends-next_replay n c key a c' (removed attempt h e) =
      sym (ap (λ r. r.next_replay) e) ∙ ground arith

  -- Once a load has been committed, aborted, or removed with its session, whatever calls of the
  -- cache and of loaders follow, a loader that still holds the data of the load and appends to it
  -- by ReplayCandidate::append gets a mismatch for every update, and changes nothing.
  pub late_append :
      (n : Encoder J) (c : HistoryCache J) (key : SessionKey) (a : ℕ) (c' : HistoryCache J)
      (xs : List (Call J)) (u : Value)
      → a < c.next_replay
      → Ends n c key a c'
      → let later = run n c' xs in
        replay_append J n.value_bytes (later.replays a) u ≡ (later.replays a, err attempt_mismatch)
  late_append n c key a c' xs u known e =
      let there : a < c'.next_replay = omega (arith, Ends-next_replay n c key a c' e) in
      let (sealed, _) = run-SealedAt n a c' xs (Ends-sealed n c key a c' e, there) in
      sealed-refuses n.value_bytes ((run n c' xs).replays a) u sealed
