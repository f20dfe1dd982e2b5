-- ===== src/Runtime/Journal.antt =====
-- The journal of what is published (runtime_state.rs: `RuntimeJournal`), with the arithmetic of a
-- release build.
use attyd.Common.{
  ℕ, ◌-◌, String, Bool, false, ◌&&◌, ◌||◌, Option, none, some, List, [], ◌∷◌, ◌++◌, map, str_eq,
  ◌==◌, ltb, leb, if◌then◌else◌, max, retain, saturating_add, wrapping_add, next_counter, usize_max,
}
use attyd.Json.{Json}
use attyd.Session.Turn.{count_bytes}
use attyd.Runtime.Changes.{RuntimeChange, RuntimeDelta, Wire, session_upsert, turn_update_appended}

module _ (J : Json) where
  pub record JournalDelta : Type 0 where
    pub delta : RuntimeDelta J
    pub bytes : ℕ

  pub record RuntimeJournal : Type 0 where
    pub seq : ℕ
    pub deltas : List JournalDelta
    pub bytes : ℕ

module _ {J : Json} where
  abbrev pub new_journal : RuntimeJournal J
  new_journal = record { seq = 0; deltas = []; bytes = 0 }

  unfoldable pub delta_bytes : Wire J → RuntimeDelta J → ℕ
  delta_bytes w delta = elim (w.to_writer delta) [
    | none ↦ usize_max
    | some chunks ↦ count_bytes 0 chunks
  ]

  abbrev pub later : ℕ → JournalDelta J → Bool
  later seq entry = ltb seq entry.delta.seq

  abbrev pub first_seq : RuntimeJournal J → ℕ
  first_seq j = elim j.deltas [ [] ↦ wrapping_add j.seq 1 | entry ∷ _ ↦ entry.delta.seq ]

  unfoldable pub deltas_after : RuntimeJournal J → ℕ → Option (List (RuntimeDelta J))
  deltas_after j seq =
      if ltb j.seq seq
      then none
      else if ltb (saturating_add seq 1) (first_seq j)
      then none
      else some (map (λ (entry : JournalDelta J). entry.delta) (retain (later seq) j.deltas))

  unfoldable pub commit :
      Wire J → RuntimeJournal J → String → Option ℕ → RuntimeChange J → RuntimeJournal J
  commit w j epoch scope_revision change =
      let delta : RuntimeDelta J = record {
        epoch = epoch;
        seq = next_counter j.seq;
        scope_revision = scope_revision;
        change = change;
      } in
      let bytes = delta_bytes w delta in
      record {
        seq = next_counter j.seq;
        bytes = saturating_add j.bytes bytes;
        deltas = j.deltas ++ record { delta = delta; bytes = bytes } ∷ [];
      }

  -- The loop of `release_through`, with the byte count.
  unfoldable pub release : ℕ → List (JournalDelta J) → ℕ → List (JournalDelta J) × ℕ
  release seq [] bytes = ([], bytes)
  release seq (entry ∷ rest) bytes =
      let freed = release seq rest (bytes - entry.bytes) in
      if ltb seq entry.delta.seq then (entry ∷ rest, bytes) else freed

  unfoldable pub release_through : RuntimeJournal J → ℕ → RuntimeJournal J
  unfolding release
  release_through j seq =
      let (deltas, bytes) = release seq j.deltas j.bytes in
      record j { deltas = deltas; bytes = bytes }

  -- The records that may own the payload of a turn.
  unfoldable pub owns_payload : String → ℕ → String → RuntimeChange J → Bool
  owns_payload session_id incarnation operation_id (session_upsert session) =
      str_eq session.session_id session_id && (session.incarnation == incarnation)
  owns_payload session_id incarnation operation_id (turn_update_appended id n rev op update) =
      (str_eq id session_id && (n == incarnation)) || str_eq op operation_id
  owns_payload session_id incarnation operation_id _ = false

  -- The greatest sequence number of a record whose change satisfies the test.
  unfoldable pub last_owner : (RuntimeChange J → Bool) → List (JournalDelta J) → Option ℕ
  last_owner p [] = none
  last_owner p (entry ∷ rest) =
      let after = last_owner p rest in
      if p entry.delta.change
      then some (elim after [ none ↦ entry.delta.seq | some n ↦ max entry.delta.seq n ])
      else after

  unfoldable pub drop_through : ℕ → List (JournalDelta J) → List (JournalDelta J)
  drop_through seq [] = []
  drop_through seq (entry ∷ rest) =
      let more = drop_through seq rest in if leb entry.delta.seq seq then more else entry ∷ rest

  -- `iter().sum()`.
  unfoldable pub sum_bytes : ℕ → List (JournalDelta J) → ℕ
  sum_bytes n [] = n
  sum_bytes n (entry ∷ rest) = sum_bytes (wrapping_add n entry.bytes) rest

  -- The prefix through the last record that may own the payload of the turn is dropped.
  unfoldable pub retire_prefix :
      (RuntimeChange J → Bool) → List (JournalDelta J) → List (JournalDelta J)
  unfolding last_owner drop_through
  retire_prefix p deltas = elim (last_owner p deltas) [
    | none ↦ deltas
    | some seq ↦ drop_through seq deltas
  ]

  unfoldable pub retire_turn_payload : RuntimeJournal J → String → ℕ → String → RuntimeJournal J
  unfolding owns_payload retire_prefix sum_bytes
  retire_turn_payload j session_id incarnation operation_id =
      let deltas = retire_prefix (owns_payload session_id incarnation operation_id) j.deltas in
      record j { deltas = deltas; bytes = sum_bytes 0 deltas }
