-- ===== src/Registry/Types.antt =====
-- The registry (session_registry.rs: `SessionEntry` and `SessionRegistry`). The cells that handles
-- share are its field `shared`.
use attyd.Common.{ℕ, String, List, []}
use attyd.Common.Dict.{Dict}
use attyd.Json.{Json}
use attyd.Session.Types.{SessionState, PendingInteraction, UrlFlow}
use attyd.History.Keys.{KeyMap}
use attyd.History.Cache.{HistoryCache, new_cache}
use attyd.Runtime.Changes.{RuntimeEffect}
use attyd.Runtime.Journal.{RuntimeJournal, new_journal}
use attyd.Registry.Shared.{Shared}
use attyd.Registry.Resources.{SessionResources, SessionResourceOwner, UrlRegistration, no_resources}

module _ (J : Json) where
  open J use {Value}

  pub record SessionEntry : Type 0 where
    pub state : SessionState J
    pub resources : SessionResources J

  pub record SessionRegistry : Type 0 where
    pub epoch : String
    pub next_incarnation : ℕ
    pub next_operation : ℕ
    pub sessions : Dict SessionEntry
    pub retired_ids : List String
    pub permission_owners : Dict SessionResourceOwner
    pub elicitation_owners : Dict SessionResourceOwner
    pub url_owners : Dict UrlRegistration
    pub history : HistoryCache J
    pub overlay_bytes : ℕ
    pub retained_terminals : KeyMap (Dict Value)
    pub retained_terminal_bytes : ℕ
    pub connection_revision : ℕ
    pub request_elicitations : Dict (PendingInteraction J)
    pub request_url_flows : Dict (UrlFlow J)
    pub resolved_request_elicitations : List String
    pub resolved_request_url_flows : List String
    pub effects : List RuntimeEffect
    pub journal : RuntimeJournal J
    pub shared : Shared

module _ {J : Json} where
  abbrev pub new_entry : SessionState J → SessionEntry J
  new_entry state = record { state = state; resources = no_resources }

  unfoldable pub new_registry : String → Shared → SessionRegistry J
  new_registry epoch shared = record {
    epoch = epoch;
    next_incarnation = 0;
    next_operation = 0;
    sessions = [];
    retired_ids = [];
    permission_owners = [];
    elicitation_owners = [];
    url_owners = [];
    history = new_cache epoch;
    overlay_bytes = 0;
    retained_terminals = [];
    retained_terminal_bytes = 0;
    connection_revision = 0;
    request_elicitations = [];
    request_url_flows = [];
    resolved_request_elicitations = [];
    resolved_request_url_flows = [];
    effects = [];
    journal = new_journal;
    shared = shared;
  }
