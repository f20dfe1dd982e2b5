-- ===== src/History/Cache.antt =====
-- The cache of histories (history_cache.rs: `HistoryCache`). An `Arc` of a load's data is an address
-- in `replays`, which the loader keeps as well.
use attyd.Common.{
  ℕ, ◌+◌, ◌-◌, String, Option, none, some, List, [], Result, ok, err, str_eq, ◌==◌, if◌then◌else◌,
  is_some, saturating_add, next_counter,
}
use attyd.Json.{Json}
use attyd.Session.Types.{
  HistoryCacheError, candidate_exists, candidate_missing, attempt_mismatch, invalid_replay,
}
use attyd.History.Reference.{normalize_from}
use attyd.History.Keys.{SessionKey, KeyMap, find, put, remove_key}
use attyd.History.Candidate.{ReplayData, fresh_replay, poison, take_history, discard, replay_append}

-- The serializer, SHA-256 and the formatting of a revision from the epoch, the incarnation and the
-- generation.
pub record Encoder (J : Json) : Type 0 where
  pub value_bytes : J.Value → ℕ
  pub encoded_len : List J.Value → ℕ
  pub digest : List J.Value → List ℕ
  pub format_revision : String → ℕ → ℕ → String

module _ (J : Json) where
  open J use {Value}

  pub record HistorySnapshot : Type 0 where
    pub revision : String
    pub updates : List Value
    pub bytes : ℕ
    pub digest : List ℕ

  pub record HistoryEntry : Type 0 where
    pub snapshot : HistorySnapshot
    pub last_used : ℕ

  pub record LoadCandidate : Type 0 where
    pub attempt_id : String
    pub replay : ℕ

  -- `replays` holds the data of every load so far, at addresses below `next_replay`.
  pub record HistoryCache : Type 0 where
    pub epoch : String
    pub next_generation : ℕ
    pub clock : ℕ
    pub entries : KeyMap HistoryEntry
    pub candidates : KeyMap LoadCandidate
    pub snapshot_bytes : ℕ
    pub replays : ℕ → ReplayData J
    pub next_replay : ℕ

module _ {J : Json} where
  open J use {Value}

  unfoldable pub new_cache : String → HistoryCache J
  new_cache epoch = record {
    epoch = epoch;
    next_generation = 0;
    clock = 0;
    entries = [];
    candidates = [];
    snapshot_bytes = 0;
    replays = λ _. fresh_replay J;
    next_replay = 0;
  }

  abbrev pub write_replay : HistoryCache J → ℕ → ReplayData J → HistoryCache J
  write_replay c a d = record c { replays = λ i. if a == i then d else c.replays i }

  unfoldable pub peek : HistoryCache J → SessionKey → Option (HistorySnapshot J)
  peek c key = elim (find key c.entries) [ none ↦ none | some entry ↦ some entry.snapshot ]

  unfoldable pub snapshot :
      HistoryCache J → SessionKey → HistoryCache J × Option (HistorySnapshot J)
  snapshot c key =
      let clock = next_counter c.clock in
      elim (find key c.entries) [
        | none ↦ (record c { clock = clock }, none)
        | some entry ↦ (
          record c {
            clock = clock;
            entries = put key (record entry { last_used = clock }) c.entries;
          },
          some entry.snapshot,
        )
      ]

  -- The address of the data of the key's load, if it is this attempt.
  unfoldable pub candidate : HistoryCache J → SessionKey → String → Result HistoryCacheError ℕ
  candidate c key attempt = elim (find key c.candidates) [
    | none ↦ err candidate_missing
    | some load ↦ if str_eq load.attempt_id attempt then ok load.replay else err attempt_mismatch
  ]

  unfoldable pub begin_candidate :
      HistoryCache J → SessionKey → String → HistoryCache J × Result HistoryCacheError (Unit {0})
  begin_candidate c key attempt =
      if is_some (find key c.candidates) then (c, err candidate_exists) else (
        write_replay
            (record c {
              candidates =
                  put key (record { attempt_id = attempt; replay = c.next_replay }) c.candidates;
              next_replay = c.next_replay + 1;
            })
            c.next_replay (fresh_replay J),
        ok tt,
      )

  unfoldable pub append_candidate :
      Encoder J
      → HistoryCache J
      → SessionKey
      → String
      → Value
      → HistoryCache J × Result HistoryCacheError (Unit {0})
  append_candidate n c key attempt update = elim (candidate c key attempt) [
    | err e ↦ (c, err e)
    | ok a ↦
        let (d, r) = replay_append J n.value_bytes (c.replays a) update in (write_replay c a d, r)
  ]

  unfoldable pub poison_candidate :
      HistoryCache J
      → SessionKey
      → String
      → HistoryCacheError
      → HistoryCache J × Result HistoryCacheError (Unit {0})
  poison_candidate c key attempt error = elim (candidate c key attempt) [
    | err e ↦ (c, err e)
    | ok a ↦ (write_replay c a (poison J (c.replays a) error), ok tt)
  ]

  abbrev pub bytes_of : Option (HistoryEntry J) → ℕ
  bytes_of none = 0
  bytes_of (some entry) = entry.snapshot.bytes

  unfoldable pub install_snapshot :
      Encoder J → HistoryCache J → SessionKey → List Value → ℕ → HistoryCache J × HistorySnapshot J
  install_snapshot n c key updates bytes =
      let generation = next_counter c.next_generation in
      let clock = next_counter c.clock in
      let made : HistorySnapshot J = record {
        revision = n.format_revision c.epoch key.incarnation generation;
        updates = updates;
        bytes = bytes;
        digest = n.digest updates;
      } in
      (
        record c {
          next_generation = generation;
          clock = clock;
          snapshot_bytes = saturating_add (c.snapshot_bytes - bytes_of (find key c.entries)) bytes;
          entries = put key (record { snapshot = made; last_used = clock }) c.entries;
        },
        made,
      )

  unfoldable pub install_empty :
      Encoder J → HistoryCache J → SessionKey → HistoryCache J × HistorySnapshot J
  unfolding install_snapshot
  install_empty n c key = install_snapshot n c key [] 2

  unfoldable pub commit_candidate :
      Encoder J
      → HistoryCache J
      → SessionKey
      → String
      → HistoryCache J × Result HistoryCacheError (HistorySnapshot J)
  unfolding install_snapshot
  commit_candidate n c key attempt = elim (candidate c key attempt) [
    | err e ↦ (c, err e)
    | ok a ↦
        let (d, taken) = take_history J (c.replays a) in
        elim taken [
          | err e ↦ (write_replay c a d, err e)
          | ok (updates, bytes) ↦
              let (c', made) =
                install_snapshot n
                  (record (write_replay c a d) { candidates = remove_key key c.candidates }) key
                  updates bytes in
              (c', ok made)
        ]
  ]

  unfoldable pub append_committed_updates :
      Encoder J
      → HistoryCache J
      → SessionKey
      → List Value
      → HistoryCache J × Result HistoryCacheError (HistorySnapshot J)
  unfolding install_snapshot
  append_committed_updates n c key suffix = elim (find key c.entries) [
    | none ↦ (c, err invalid_replay)
    | some entry ↦ elim (normalize_from J entry.snapshot.updates suffix) [
      | err _ ↦ (c, err invalid_replay)
      | ok updates ↦
          let (c', made) = install_snapshot n c key updates (n.encoded_len updates) in (c', ok made)
    ]
  ]

  unfoldable pub abort_candidate :
      HistoryCache J → SessionKey → String → HistoryCache J × Result HistoryCacheError (Unit {0})
  abort_candidate c key attempt = elim (candidate c key attempt) [
    | err e ↦ (c, err e)
    | ok a ↦ (
      record (write_replay c a (discard J (c.replays a))) {
        candidates = remove_key key c.candidates;
      },
      ok tt,
    )
  ]

  abbrev pub drop_candidate : HistoryCache J → Option (LoadCandidate J) → HistoryCache J
  drop_candidate c none = c
  drop_candidate c (some load) = write_replay c load.replay (discard J (c.replays load.replay))

  unfoldable pub remove : HistoryCache J → SessionKey → HistoryCache J
  remove c key =
      drop_candidate
        (record c {
          entries = remove_key key c.entries;
          snapshot_bytes = c.snapshot_bytes - bytes_of (find key c.entries);
          candidates = remove_key key c.candidates;
        })
        (find key c.candidates)
