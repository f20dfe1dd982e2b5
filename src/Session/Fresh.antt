-- ===== src/Session/Fresh.antt =====
-- What the admission of a new intent has checked.
use attyd.Common.{String, Option, none, some, List, ◌≡◌, refl, ok, arith, is_text→eq}
use attyd.Json.{Json}
use attyd.Common.Dict.{lookup}
use attyd.Session.Types.{ready, SessionAdmission, LastConsumption, SessionState, Codec}
use attyd.Session.Admission.{can_begin}
use attyd.Session.Turn.{payload_digest, check_settled, check_turn_admission}

module _ {J : Json} (s : SessionState J) where
  -- A prompt starts only in a session that is ready, with nothing in progress.
  pub record Idle : Type 0 where
    pub ready_phase : s.phase ≡ ready
    pub no_turn : s.active_turn ≡ none
    pub no_operation : s.operation ≡ none
    pub no_load : s.load_attempt ≡ none

  pub can_begin-prompt : can_begin s SessionAdmission.prompt ≡ ok tt → Idle
  unfolding can_begin
  can_begin-prompt h = ground arith

  pub record Fresh (expected intent : String) : Type 0 where
    pub idle : Idle
    pub current : s.history_revision ≡ some expected
    pub unused : lookup intent s.consumed_intents ≡ none

  check_settled-Fresh :
      (last : Option LastConsumption) (expected intent : String) (digest : List _)
      → lookup intent s.consumed_intents ≡ last
      → check_settled last s expected digest ≡ ok none
      → Fresh expected intent
  unfolding check_settled
  check_settled-Fresh none expected intent digest e h =
      ground (arith, can_begin-prompt, is_text→eq s.history_revision expected)
  check_settled-Fresh (some last) expected intent digest e h = ground arith

  pub check_turn_admission-Fresh :
      (c : Codec J) (expected intent : String) (prompt : List J.Value)
      → check_turn_admission c s expected intent prompt ≡ ok none
      → Fresh expected intent
  unfolding check_turn_admission
  check_turn_admission-Fresh c expected intent prompt h = ground (
    arith,
    check_settled-Fresh (lookup intent s.consumed_intents) expected intent (payload_digest c prompt)
        refl,
  )
