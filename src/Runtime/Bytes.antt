-- ===== src/Runtime/Bytes.antt =====
-- The byte count of the journal.
use attyd.Common.{
  next_counter, ℕ, ◌+◌, ◌-◌, ◌≤◌, wrapping_add, String, Option, List, [], ◌∷◌, ◌++◌, ◌≡◌, refl,
  usize_max, arith,
}
use attyd.Json.{Json}
use attyd.Runtime.Changes.{RuntimeChange, RuntimeDelta, Wire}
use attyd.Runtime.Journal.{
  JournalDelta, RuntimeJournal, new_journal, commit, delta_bytes, release, release_through,
  sum_bytes, retire_turn_payload,
}
use attyd.Runtime.Feed.{
  Publication, commits, releases, retires, numbered_delta, publish, publish_all,
}

module _ {J : Json} where
  abbrev pub total : List (JournalDelta J) → ℕ
  total [] = 0
  total (entry ∷ rest) = entry.bytes + total rest

  -- What is retained after each publication fits in a `usize`.
  abbrev pub Fits : Wire J → RuntimeJournal J → List (Publication J) → Type 0
  Fits w j [] = total j.deltas ≤ usize_max
  Fits w j (p ∷ ps) = (total j.deltas ≤ usize_max) × Fits w (publish w j p) ps

  Fits-now :
      (w : Wire J) (j : RuntimeJournal J) (ps : List (Publication J))
      → Fits w j ps
      → total j.deltas ≤ usize_max
  Fits-now w j [] f = f
  Fits-now w j (p ∷ ps) f = f.0

  total-append :
      (ds : List (JournalDelta J)) (x : JournalDelta J) → total (ds ++ x ∷ []) ≡ total ds + x.bytes
  total-append [] x = omega arith
  total-append (d ∷ ds) x = omega (arith, total-append ds x)

  release-total :
      (s b : ℕ) (es : List (JournalDelta J))
      → b ≡ total es
      → (release s es b).1 ≡ total (release s es b).0
  unfolding release
  release-total s b [] h = h
  release-total s b (e ∷ es) h = ground (arith, release-total s (b - e.bytes) es)

  sum_bytes-total :
      (n : ℕ) (es : List (JournalDelta J))
      → n + total es ≤ usize_max
      → sum_bytes n es ≡ n + total es
  unfolding sum_bytes
  sum_bytes-total n [] h = omega arith
  sum_bytes-total n (e ∷ es) h = ground (arith, sum_bytes-total (wrapping_add n e.bytes) es)

  commit-bytes :
      (w : Wire J) (j : RuntimeJournal J) (epoch : String) (revision : Option ℕ)
      (change : RuntimeChange J)
      → j.bytes ≡ total j.deltas
      → total (commit w j epoch revision change).deltas ≤ usize_max
      → (commit w j epoch revision change).bytes ≡ total (commit w j epoch revision change).deltas
  unfolding commit
  commit-bytes w j epoch revision change e f =
      let d : RuntimeDelta J = numbered_delta epoch revision change (next_counter j.seq) in
      ground (arith, total-append j.deltas (record { delta = d; bytes = delta_bytes w d }))

  publish-bytes :
      (w : Wire J) (j : RuntimeJournal J) (p : Publication J)
      → j.bytes ≡ total j.deltas
      → total (publish w j p).deltas ≤ usize_max
      → (publish w j p).bytes ≡ total (publish w j p).deltas
  unfolding publish
  publish-bytes w j (commits epoch revision change) e f = commit-bytes w j epoch revision change e f
  publish-bytes w j (releases seq) e f =
      unfold release_through in release-total seq j.bytes j.deltas e
  publish-bytes w j (retires id n op) e f =
      unfold retire_turn_payload in
      ground (arith, sum_bytes-total 0 (publish w j (retires id n op)).deltas)

  publish_all-bytes :
      (w : Wire J) (j : RuntimeJournal J) (ps : List (Publication J))
      → j.bytes ≡ total j.deltas
      → Fits w j ps
      → (publish_all w j ps).bytes ≡ total (publish_all w j ps).deltas
  unfolding publish_all
  publish_all-bytes w j [] e f = e
  publish_all-bytes w j (p ∷ ps) e f =
      publish_all-bytes w (publish w j p) ps
        (publish-bytes w j p e (Fits-now w (publish w j p) ps f.1)) f.1

  -- After any publications on a new journal, its byte count is the sum of the bytes of the records
  -- that it retains, if what is retained fits in a usize after each publication.
  pub journal_bytes :
      (w : Wire J) (ps : List (Publication J))
      → Fits w new_journal ps
      → (publish_all w new_journal ps).bytes ≡ total (publish_all w new_journal ps).deltas
  journal_bytes w ps f = publish_all-bytes w new_journal ps refl f
