-- ===== src/Runtime/Refinement.antt =====
-- The journal implements the log of all that was published.
use attyd.Common.{
  ℕ, suc, ◌+◌, ◌-◌, ◌≤◌, ◌<◌, Bool, true, Option, none, some, List, [], ◌∷◌, ◌++◌, ◌≡◌, refl, sym,
  ◌∙◌, ap, subst, inl, inr, leb, max, min, length, drop, next_counter, drop_all, arith, Bool-cases,
  drop-drop, drop-append, length-drop, u64_mod, length-append, String,
}
use mathlib.Core.List.{map-append}
use attyd.Json.{Json}
use attyd.Runtime.Changes.{RuntimeChange, RuntimeDelta, Wire}
use attyd.Runtime.Journal.{
  JournalDelta, RuntimeJournal, new_journal, deltas_after, commit, release_through,
  retire_turn_payload, retire_prefix, delta_bytes, last_owner, owns_payload, first_seq,
}
use attyd.Runtime.Feed.{
  Publication, commits, releases, retires, Feed, publish, publish_all, advance, advance_all,
  empty_feed, since, last_position, numbered_delta,
}
use attyd.Runtime.Numbered.{
  Numbered, payloads, Numbered-drop, Numbered-append, retain-later, release-drop, drop_through-drop,
  last_owner-position, last_position-drop, last_position-le,
}

module _ {J : Json} where
  pub record Refines (j : RuntimeJournal J) (f : Feed J) : Type 0 where
    pub counted : j.seq ≡ length f.log
    pub kept : payloads j.deltas ≡ drop f.base f.log
    pub low : f.base ≤ length f.log
    pub numbered : Numbered 0 f.log

  kept-Numbered :
      (j : RuntimeJournal J) (f : Feed J) → Refines j f → Numbered f.base (payloads j.deltas)
  kept-Numbered j f r = rw r.kept (
      let e : 0 + f.base ≡ f.base = omega arith in
      subst (λ n. Numbered n (drop f.base f.log)) e (Numbered-drop f.base 0 f.log r.numbered))

  -- A scan that drops the records up to `s`.
  dropped :
      (j : RuntimeJournal J) (f : Feed J) (s b : ℕ)
      → Refines j f
      → f.base + (s - f.base) ≡ b
      → drop (s - f.base) (payloads j.deltas) ≡ drop b f.log
  dropped j f s b r e = rw r.kept (drop-drop (s - f.base) f.base f.log ∙ ap (λ k. drop k f.log) e)

  commit-Refines :
      (w : Wire J) (j : RuntimeJournal J) (f : Feed J) (epoch : String) (revision : Option ℕ)
      (change : RuntimeChange J)
      → length f.log + 1 < u64_mod
      → Refines j f
      → Refines (commit w j epoch revision change) (advance f (commits epoch revision change))
  unfolding commit advance
  commit-Refines w j f epoch revision change lt r =
      let e : next_counter j.seq ≡ length f.log + 1 = ground (arith, r.counted) in
      let x : JournalDelta J = record {
        delta = numbered_delta epoch revision change (next_counter j.seq);
        bytes = delta_bytes w (numbered_delta epoch revision change (next_counter j.seq));
      } in
      let y : RuntimeDelta J = numbered_delta epoch revision change (length f.log + 1) in
      record {
        counted = omega (arith, e, length-append f.log (y ∷ []));
        kept =
            map-append (λ (entry : JournalDelta J). entry.delta) j.deltas (x ∷ [])
            ∙ ap (λ n. payloads j.deltas ++ numbered_delta epoch revision change n ∷ []) e
            ∙ ap (λ ds. ds ++ y ∷ []) r.kept
            ∙ sym (drop-append f.base f.log (y ∷ []) r.low);
        low = omega (arith, r.low, length-append f.log (y ∷ []));
        numbered = Numbered-append 0 f.log y r.numbered (omega arith);
      }

  capped :
      (log : List (RuntimeDelta J)) (base s : ℕ)
      → base ≤ length log
      → drop (base + (s - base)) log ≡ drop (max base (min s (length log))) log
  capped log base s h = elim (Bool-cases (leb s (length log))) [
    | inl le ↦ let e : base + (s - base) ≡ max base (min s (length log)) = ground arith in rw e refl
    | inr gt ↦
        let e : max base (min s (length log)) ≡ length log = ground arith in
        rw e (
          drop_all (base + (s - base)) log (ground arith)
          ∙ sym (drop_all (length log) log (omega arith)))
  ]

  release-Refines :
      (j : RuntimeJournal J) (f : Feed J) (seq : ℕ)
      → Refines j f
      → Refines (release_through j seq) (advance f (releases seq))
  unfolding release_through advance
  release-Refines j f seq r = record {
    counted = r.counted;
    kept =
        release-drop seq f.base j.bytes j.deltas (kept-Numbered j f r)
        ∙ dropped j f seq (f.base + (seq - f.base)) r refl
        ∙ capped f.log f.base seq r.low;
    low = ground (arith, r.low);
    numbered = r.numbered;
  }

  retired :
      (p : RuntimeChange J → Bool) (j : RuntimeJournal J) (f : Feed J)
      → Refines j f
      → payloads (retire_prefix p j.deltas) ≡ drop (max f.base (last_position p f.log)) f.log
  unfolding retire_prefix
  retired p j f r =
      let lp = last_position p f.log in
      let n = kept-Numbered j f r in
      let pos : last_position p (payloads j.deltas) ≡ lp - f.base =
        ap (last_position p) r.kept ∙ last_position-drop p f.base f.log in
      elim (Bool-cases (leb lp f.base)) [
        | inl le ↦
            let e : last_owner p j.deltas ≡ none =
              ground (arith, pos, last_owner-position p f.base j.deltas n) in
            let m : max f.base lp ≡ f.base = ground arith in rw m (rw (e, retire_prefix) r.kept)
        | inr gt ↦
            let e : last_owner p j.deltas ≡ some lp =
              ground (arith, pos, last_owner-position p f.base j.deltas n) in
            let m : f.base + (lp - f.base) ≡ max f.base lp = ground arith in
            rw (e, retire_prefix)
              (drop_through-drop lp f.base j.deltas n ∙ dropped j f lp (max f.base lp) r m)
      ]

  retire-Refines :
      (j : RuntimeJournal J) (f : Feed J) (id : String) (n : ℕ) (op : String)
      → Refines j f
      → Refines (retire_turn_payload j id n op) (advance f (retires id n op))
  unfolding retire_turn_payload advance retire_prefix
  retire-Refines j f id n op r =
      let p = owns_payload {J = J} id n op in
      record {
        counted = r.counted;
        kept = retired p j f r;
        low = ground (arith, r.low, last_position-le p f.log);
        numbered = r.numbered;
      }

  length-advance : (f : Feed J) (p : Publication J) → length (advance f p).log ≤ length f.log + 1
  unfolding advance
  length-advance f (commits epoch revision change) =
      omega
        (arith, length-append f.log (numbered_delta epoch revision change (length f.log + 1) ∷ []))
  length-advance f (releases seq) = omega arith
  length-advance f (retires id n op) = omega arith

  publish-Refines :
      (w : Wire J) (j : RuntimeJournal J) (f : Feed J) (p : Publication J)
      → length f.log + 1 < u64_mod
      → Refines j f
      → Refines (publish w j p) (advance f p)
  unfolding publish
  publish-Refines w j f (commits epoch revision change) lt r =
      commit-Refines w j f epoch revision change lt r
  publish-Refines w j f (releases seq) lt r = release-Refines j f seq r
  publish-Refines w j f (retires id n op) lt r = retire-Refines j f id n op r

  publish_all-Refines :
      (w : Wire J) (j : RuntimeJournal J) (f : Feed J) (ps : List (Publication J))
      → length f.log + length ps < u64_mod
      → Refines j f
      → Refines (publish_all w j ps) (advance_all f ps)
  unfolding publish_all advance_all
  publish_all-Refines w j f [] lt r = r
  publish_all-Refines w j f (p ∷ ps) lt r =
      publish_all-Refines w (publish w j p) (advance f p) ps (omega (arith, length-advance f p))
        (publish-Refines w j f p (omega arith) r)

  length-advance_all :
      (f : Feed J) (ps : List (Publication J))
      → length (advance_all f ps).log ≤ length f.log + length ps
  unfolding advance_all
  length-advance_all f [] = omega arith
  length-advance_all f (p ∷ ps) =
      omega (arith, length-advance f p, length-advance_all (advance f p) ps)

  length-map : (es : List (JournalDelta J)) → length (payloads es) ≡ length es
  length-map [] = refl
  length-map (e ∷ es) = ap suc (length-map es)

  first_of :
      (seq b : ℕ) (es : List (JournalDelta J))
      → Numbered b (payloads es)
      → (length es ≡ 0 → b ≡ seq)
      → seq + 1 < u64_mod
      → first_seq (record { seq = seq; deltas = es; bytes = 0 }) ≡ b + 1
  first_of seq b [] n h lt = omega (arith, h refl)
  first_of seq b (e ∷ es) n h lt = omega (arith, n.0)

  first_seq-base :
      (j : RuntimeJournal J) (f : Feed J)
      → length f.log + 1 < u64_mod
      → Refines j f
      → first_seq j ≡ f.base + 1
  first_seq-base j f lt r =
      first_of j.seq f.base j.deltas (kept-Numbered j f r)
        (λ (none_left : length j.deltas ≡ 0). omega (
          arith,
          r.counted,
          r.low,
          none_left,
          sym (length-map j.deltas) ∙ ap length r.kept ∙ length-drop f.base f.log,
        ))
        (omega (arith, r.counted))

  deltas_after-since :
      (j : RuntimeJournal J) (f : Feed J) (seq : ℕ)
      → length f.log + 1 < u64_mod
      → Refines j f
      → deltas_after j seq ≡ since f seq
  unfolding deltas_after since
  deltas_after-since j f seq lt r =
      let scan =
        retain-later seq f.base j.deltas (kept-Numbered j f r)
        ∙ dropped j f seq (f.base + (seq - f.base)) r refl in
      let sum : leb f.base seq ≡ true → f.base + (seq - f.base) ≡ seq = λ h. ground arith in
      ground (arith, r.counted, r.low, first_seq-base j f lt r, scan, sum)

  -- After fewer than 2^64 - 1 publications of any kind on a new journal, what it gives to a
  -- subscriber that has seen the first n records is the rest of the log of all records in order,
  -- if n is no more than the log has and no less than the prefix that was released or retired, and
  -- nothing otherwise.
  pub journal_feed :
      (w : Wire J) (ps : List (Publication J)) (seq : ℕ)
      → length ps + 1 < u64_mod
      → deltas_after (publish_all w new_journal ps) seq ≡ since (advance_all empty_feed ps) seq
  journal_feed w ps seq lt =
      deltas_after-since (publish_all w new_journal ps) (advance_all empty_feed ps) seq
        (omega (arith, length-advance_all empty_feed ps))
        (publish_all-Refines w new_journal empty_feed ps (omega arith)
          (record { counted = refl; kept = refl; low = omega arith; numbered = tt }))
