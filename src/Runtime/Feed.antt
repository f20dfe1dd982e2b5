-- ===== src/Runtime/Feed.antt =====
-- What the journal promises: the log of all that was published, of which a prefix is gone.
use attyd.Common.{
  ℕ, suc, ◌+◌, String, Bool, ◌&&◌, Option, none, some, List, [], ◌∷◌, ◌++◌, ◌==◌, leb,
  if◌then◌else◌, max, min, length, drop,
}
use attyd.Json.{Json}
use attyd.Runtime.Changes.{RuntimeChange, RuntimeDelta, Wire}
use attyd.Runtime.Journal.{
  RuntimeJournal, commit, release_through, retire_turn_payload, owns_payload,
}

module _ (J : Json) where
  pub data Publication : Type 0 where
    commits : String → Option ℕ → RuntimeChange J → Publication
    releases : ℕ → Publication
    retires : String → ℕ → String → Publication

  -- The records of the log are numbered from 1; those up to `base` are gone.
  pub record Feed : Type 0 where
    pub log : List (RuntimeDelta J)
    pub base : ℕ

module _ {J : Json} where
  unfoldable pub publish : Wire J → RuntimeJournal J → Publication J → RuntimeJournal J
  publish w j (commits epoch revision change) = commit w j epoch revision change
  publish w j (releases seq) = release_through j seq
  publish w j (retires session_id incarnation operation_id) =
      retire_turn_payload j session_id incarnation operation_id

  unfoldable pub publish_all : Wire J → RuntimeJournal J → List (Publication J) → RuntimeJournal J
  publish_all w j [] = j
  publish_all w j (p ∷ ps) = publish_all w (publish w j p) ps

  -- The number of the last record whose change satisfies the test, and 0 if there is none.
  unfoldable pub last_position : (RuntimeChange J → Bool) → List (RuntimeDelta J) → ℕ
  last_position p [] = 0
  last_position p (d ∷ ds) =
      let after = last_position p ds in
      if after == 0 then (if p d.change then 1 else 0) else suc after

  abbrev pub numbered_delta : String → Option ℕ → RuntimeChange J → ℕ → RuntimeDelta J
  numbered_delta epoch revision change n = record {
    epoch = epoch;
    seq = n;
    scope_revision = revision;
    change = change;
  }

  unfoldable pub advance : Feed J → Publication J → Feed J
  unfolding last_position
  advance f (commits epoch revision change) = record f {
    log = f.log ++ numbered_delta epoch revision change (length f.log + 1) ∷ [];
  }
  advance f (releases seq) = record f { base = max f.base (min seq (length f.log)) }
  advance f (retires session_id incarnation operation_id) = record f {
    base = max f.base (last_position (owns_payload session_id incarnation operation_id) f.log);
  }

  unfoldable pub advance_all : Feed J → List (Publication J) → Feed J
  advance_all f [] = f
  advance_all f (p ∷ ps) = advance_all (advance f p) ps

  abbrev pub empty_feed : Feed J
  empty_feed = record { log = []; base = 0 }

  -- What a subscriber that has seen the first `seq` records still needs, if all of it is there.
  unfoldable pub since : Feed J → ℕ → Option (List (RuntimeDelta J))
  since f seq = if leb seq (length f.log) && leb f.base seq then some (drop seq f.log) else none
