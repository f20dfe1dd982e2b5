-- ===== src/Mirror/Moves.antt =====
-- How a call may change the sessions and the count of overlay bytes.
use attyd.Common.{
  ℕ, ◌+◌, ◌-◌, ◌≤◌, String, Option, none, some, [], ◌∷◌, ◌≡◌, refl, sym, ap, subst, str_eq_iff,
  saturating_add, usize_max, arith,
}
use attyd.Common.Dict.{Dict, lookup, insert, remove, lookup-insert, lookup-remove}
use attyd.Json.{Json}
use attyd.Registry.Types.{SessionEntry, SessionRegistry}

module _ {J : Json} where
  abbrev pub bytes_of : Option (SessionEntry J) → ℕ
  bytes_of none = 0
  bytes_of (some entry) = entry.state.active_overlay_bytes

  -- The bytes of the overlays of all sessions.
  unfoldable pub overlay_total : Dict (SessionEntry J) → ℕ
  overlay_total [] = 0
  overlay_total ((id, entry) ∷ rest) = entry.state.active_overlay_bytes + overlay_total rest

  -- No identifier is there twice.
  abbrev pub Distinct : Dict (SessionEntry J) → Type 0
  Distinct [] = Unit
  Distinct ((id, entry) ∷ rest) = (lookup id rest ≡ none) × Distinct rest

  pub overlay_total-insert :
      (id : String) (e : SessionEntry J) (m : Dict (SessionEntry J))
      → overlay_total (insert id e m) + bytes_of (lookup id m)
        ≡ overlay_total m + e.state.active_overlay_bytes
  unfolding overlay_total insert lookup
  overlay_total-insert id e [] = omega arith
  overlay_total-insert id e ((j, w) ∷ m) = ground (arith, overlay_total-insert id e m)

  overlay_total-remove_absent :
      (id : String) (m : Dict (SessionEntry J))
      → lookup id m ≡ none
      → overlay_total (remove id m) ≡ overlay_total m
  unfolding overlay_total remove lookup
  overlay_total-remove_absent id [] h = refl
  overlay_total-remove_absent id ((j, w) ∷ m) h = ground (arith, overlay_total-remove_absent id m)

  pub overlay_total-remove :
      (id : String) (m : Dict (SessionEntry J))
      → Distinct m
      → overlay_total (remove id m) + bytes_of (lookup id m) ≡ overlay_total m
  unfolding overlay_total remove lookup
  overlay_total-remove id [] d = refl
  overlay_total-remove id ((j, w) ∷ m) d =
      ground (arith, overlay_total-remove id m, overlay_total-remove_absent id m, str_eq_iff j id)

  pub bytes-le-total :
      (id : String) (m : Dict (SessionEntry J)) → bytes_of (lookup id m) ≤ overlay_total m
  unfolding overlay_total lookup
  bytes-le-total id [] = omega arith
  bytes-le-total id ((j, w) ∷ m) = ground (arith, bytes-le-total id m)

  pub Distinct-insert :
      (id : String) (e : SessionEntry J) (m : Dict (SessionEntry J))
      → Distinct m
      → Distinct (insert id e m)
  unfolding insert lookup
  Distinct-insert id e [] d = (refl, tt)
  Distinct-insert id e ((j, w) ∷ m) d =
      ground
        (arith, Distinct-insert id e m, lookup-insert id j e m, str_eq_iff id j, str_eq_iff j id)

  pub Distinct-remove :
      (id : String) (m : Dict (SessionEntry J)) → Distinct m → Distinct (remove id m)
  unfolding remove
  Distinct-remove id [] d = tt
  Distinct-remove id ((j, w) ∷ m) d = ground (arith, Distinct-remove id m, lookup-remove id j m)

  -- The count of the registry is that of its sessions.
  pub record Accounted (r : SessionRegistry J) : Type 0 where
    pub distinct : Distinct r.sessions
    pub exact : r.overlay_bytes ≡ overlay_total r.sessions

  -- Steps that take no memory for an overlay.
  pub data Quiet : SessionRegistry J → SessionRegistry J → Type 0 where
    still :
        {r t : SessionRegistry J}
        → t.sessions ≡ r.sessions
        → t.overlay_bytes ≡ r.overlay_bytes
        → Quiet r t
    writes :
        {r t : SessionRegistry J} (id : String) (old new : SessionEntry J)
        → lookup id r.sessions ≡ some old
        → t.sessions ≡ insert id new r.sessions
        → new.state.active_overlay_bytes ≡ old.state.active_overlay_bytes
        → t.overlay_bytes ≡ r.overlay_bytes
        → Quiet r t
    frees :
        {r t : SessionRegistry J} (id : String) (old new : SessionEntry J)
        → lookup id r.sessions ≡ some old
        → t.sessions ≡ insert id new r.sessions
        → new.state.active_overlay_bytes ≡ 0
        → t.overlay_bytes ≡ r.overlay_bytes - old.state.active_overlay_bytes
        → Quiet r t
    installs :
        {r t : SessionRegistry J} (id : String) (new : SessionEntry J)
        → bytes_of (lookup id r.sessions) ≡ 0
        → t.sessions ≡ insert id new r.sessions
        → new.state.active_overlay_bytes ≡ 0
        → t.overlay_bytes ≡ r.overlay_bytes
        → Quiet r t
    retires :
        {r t : SessionRegistry J} (id : String)
        → bytes_of (lookup id r.sessions) ≡ 0
        → t.sessions ≡ remove id r.sessions
        → t.overlay_bytes ≡ r.overlay_bytes
        → Quiet r t
    chain : {r s t : SessionRegistry J} → Quiet r s → Quiet s t → Quiet r t

  -- A call is quiet, or charges the overlay of one session.
  pub data Move : SessionRegistry J → SessionRegistry J → Type 0 where
    quiet : {r t : SessionRegistry J} → Quiet r t → Move r t
    charges :
        {r t : SessionRegistry J} (id : String) (old new : SessionEntry J)
        → lookup id r.sessions ≡ some old
        → t.sessions ≡ insert id new r.sessions
        → t.overlay_bytes
          ≡ saturating_add
              (r.overlay_bytes - old.state.active_overlay_bytes)
              new.state.active_overlay_bytes
        → Move r t

  pub Quiet-Accounted : {r t : SessionRegistry J} → Quiet r t → Accounted r → Accounted t
  Quiet-Accounted {r} {t} (still e b) a = record {
    distinct = subst Distinct (sym e) a.distinct;
    exact = omega (arith, a.exact, b, ap overlay_total e);
  }
  Quiet-Accounted {r} {t} (writes id old new found e same b) a = record {
    distinct = subst Distinct (sym e) (Distinct-insert id new r.sessions a.distinct);
    exact = omega (
      arith,
      a.exact,
      b,
      ap overlay_total e,
      overlay_total-insert id new r.sessions,
      ap bytes_of found,
      same,
    );
  }
  Quiet-Accounted {r} {t} (frees id old new found e zeroed b) a = record {
    distinct = subst Distinct (sym e) (Distinct-insert id new r.sessions a.distinct);
    exact = omega (
      arith,
      a.exact,
      b,
      ap overlay_total e,
      overlay_total-insert id new r.sessions,
      ap bytes_of found,
      zeroed,
      bytes-le-total id r.sessions,
    );
  }
  Quiet-Accounted {r} {t} (installs id new absent e zeroed b) a = record {
    distinct = subst Distinct (sym e) (Distinct-insert id new r.sessions a.distinct);
    exact = omega (
      arith,
      a.exact,
      b,
      ap overlay_total e,
      overlay_total-insert id new r.sessions,
      absent,
      zeroed,
    );
  }
  Quiet-Accounted {r} {t} (retires id absent e b) a = record {
    distinct = subst Distinct (sym e) (Distinct-remove id r.sessions a.distinct);
    exact = omega (
      arith,
      a.exact,
      b,
      ap overlay_total e,
      overlay_total-remove id r.sessions a.distinct,
      absent,
    );
  }
  Quiet-Accounted (chain p q) a = Quiet-Accounted q (Quiet-Accounted p a)

  -- The count stays exact while what it counts fits in a `usize`.
  pub Move-Accounted :
      {r t : SessionRegistry J}
      → Move r t
      → overlay_total t.sessions ≤ usize_max
      → Accounted r
      → Accounted t
  Move-Accounted (quiet q) fits a = Quiet-Accounted q a
  Move-Accounted {r} {t} (charges id old new found e b) fits a = record {
    distinct = subst Distinct (sym e) (Distinct-insert id new r.sessions a.distinct);
    exact = ground (
      arith,
      a.exact,
      b,
      ap overlay_total e,
      overlay_total-insert id new r.sessions,
      ap bytes_of found,
      bytes-le-total id r.sessions,
    );
  }
