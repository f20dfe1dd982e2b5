-- ===== src/Mirror/Store.antt =====
-- The store of the mirror: the state of a session by its incarnation, the count of the bytes of
-- overlays, and the output of terminals that history refers to (session_mirror.rs).
use attyd.Common.{
  ℕ, ◌-◌, String, Bool, false, ◌&&◌, ◌||◌, none, some, List, [], ◌∷◌, Result, ok, err, ◌==◌,
  is_text, is_some_and, if◌then◌else◌, saturating_add,
}
use attyd.Common.Dict.{Dict, lookup, insert}
use attyd.Json.{Json, get_str}
use attyd.Session.Types.{MirrorError, unknown_session, stale_incarnation, SessionState, Codec}
use attyd.History.Keys.{SessionKey, find, put, remove_key}
use attyd.History.Cache.{Encoder}
use attyd.Registry.Types.{SessionRegistry}

-- The packages that the registry calls, and formatting: `format_operation` is
-- `format!("{}:{}", epoch, n)`, and `value_len` is the length of a serialized value, or
-- `usize::MAX` where that fails.
pub record Packages (J : Json) : Type 0 where
  pub codec : Codec J
  pub encoder : Encoder J
  pub format_operation : String → ℕ → String
  pub value_len : J.Value → ℕ

abbrev pub key_of : String → ℕ → SessionKey
key_of id incarnation = record { session_id = id; incarnation = incarnation }

module _ (J : Json) where
  open J use {Value, get, as_array}

  abbrev pub shows_terminal : String → List Value → Bool
  shows_terminal id [] = false
  shows_terminal id (item ∷ items) =
      (is_text (get_str J item "type") "terminal" && is_text (get_str J item "terminalId") id)
      || shows_terminal id items

  unfoldable pub references_terminal : Value → String → Bool
  references_terminal update id = elim (get update "content") [
    | none ↦ false
    | some content ↦ is_some_and (as_array content) (shows_terminal id)
  ]

  abbrev pub any_reference : List Value → String → Bool
  any_reference [] id = false
  any_reference (update ∷ updates) id = references_terminal update id || any_reference updates id

module _ {J : Json} where
  open J use {Value}

  unfoldable pub require_state :
      SessionRegistry J → String → ℕ → Result MirrorError (SessionState J)
  require_state r id incarnation = elim (lookup id r.sessions) [
    | none ↦ err unknown_session
    | some entry ↦
        if entry.state.incarnation == incarnation then ok entry.state else err stale_incarnation
  ]

  -- The registry after a write to the state of a session that is there.
  unfoldable pub set_state : SessionRegistry J → String → SessionState J → SessionRegistry J
  set_state r id state = elim (lookup id r.sessions) [
    | none ↦ r
    | some entry ↦ record r { sessions = insert id (record entry { state = state }) r.sessions }
  ]

  -- `saturating_sub` of the old bytes of an overlay, and `saturating_add` of the new ones.
  abbrev pub charge : SessionRegistry J → ℕ → ℕ → SessionRegistry J
  charge r old new = record r { overlay_bytes = saturating_add (r.overlay_bytes - old) new }

  abbrev pub discharge : SessionRegistry J → ℕ → SessionRegistry J
  discharge r old = record r { overlay_bytes = r.overlay_bytes - old }

  -- The loops that subtract the length of what is no longer retained.
  unfoldable pub subtract_all : Packages J → ℕ → Dict Value → ℕ
  subtract_all k bytes [] = bytes
  subtract_all k bytes ((id, terminal) ∷ rest) = subtract_all k (bytes - k.value_len terminal) rest

  unfoldable pub remove_retained_terminals :
      Packages J → SessionRegistry J → SessionKey → SessionRegistry J
  unfolding subtract_all
  remove_retained_terminals k r key = elim (find key r.retained_terminals) [
    | none ↦ r
    | some terminals ↦ record r {
      retained_terminals = remove_key key r.retained_terminals;
      retained_terminal_bytes = subtract_all k r.retained_terminal_bytes terminals;
    }
  ]

  unfoldable pub prune : Packages J → List Value → ℕ → Dict Value → ℕ × Dict Value
  prune k updates bytes [] = (bytes, [])
  prune k updates bytes ((id, terminal) ∷ rest) =
      let kept = any_reference J updates id in
      let (bytes', rest') =
        prune k updates (if kept then bytes else bytes - k.value_len terminal) rest in
      (bytes', if kept then (id, terminal) ∷ rest' else rest')

  unfoldable pub prune_retained_terminals :
      Packages J → SessionRegistry J → SessionKey → List Value → SessionRegistry J
  unfolding prune
  prune_retained_terminals k r key updates = elim (find key r.retained_terminals) [
    | none ↦ r
    | some terminals ↦
        let (bytes, kept) = prune k updates r.retained_terminal_bytes terminals in
        record r {
          retained_terminals = put key kept r.retained_terminals;
          retained_terminal_bytes = bytes;
        }
  ]
