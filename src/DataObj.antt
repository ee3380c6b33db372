-- ===== src/DataObj.antt =====
-- internal/dataobj/kinds.go: the closed method set of each object kind.
use synamcps_server.Prelude.{String, Bool, List, [], ◌∷◌, not, ltb, length}
use synamcps_server.Prelude.Strings.{contains}
use synamcps_server.Models.{
  ObjectKind, storage, variable, counter, table, queue, bus, securebus, schedule, log, git,
}

unfoldable pub methods : ObjectKind → List String
methods storage = "search" ∷ "get" ∷ "save" ∷ "delete" ∷ []
methods variable = "set" ∷ "get" ∷ []
methods counter = "set" ∷ "get" ∷ "increase" ∷ "decrease" ∷ []
methods table = "query" ∷ []
methods queue = "enqueue" ∷ "dequeue" ∷ "peek" ∷ "size" ∷ []
methods bus = "produce" ∷ "consume" ∷ "subscribe" ∷ []
methods securebus =
    "policy" ∷ "publish" ∷ "attest" ∷ "verify" ∷ "consume" ∷ "subscribe" ∷ "keys" ∷ []
methods schedule = "set" ∷ "get" ∷ "list" ∷ []
methods log = "add" ∷ "tail" ∷ []
methods git =
    "init" ∷ "clone" ∷ "add" ∷ "commit" ∷ "status" ∷ "log" ∷ "diff" ∷ "branch" ∷ "checkout"
    ∷ "fetch" ∷ "pull" ∷ "push" ∷ "tag" ∷ "show" ∷ "remote" ∷ []
methods (ObjectKind.other _) = []

-- the loop over `Methods(kind)` is that of `slices.Contains`
unfoldable pub has_method : ObjectKind → String → Bool
has_method kind method = contains (methods kind) method

abbrev pub non_mutating : List String
non_mutating =
    "get" ∷ "search" ∷ "peek" ∷ "size" ∷ "list" ∷ "tail" ∷ "status" ∷ "log" ∷ "diff" ∷ "show"
    ∷ "consume" ∷ "subscribe" ∷ "policy" ∷ "verify" ∷ "keys" ∷ []

unfoldable pub is_mutating : String → Bool
is_mutating method = not (contains non_mutating method)

unfoldable pub valid_kind : ObjectKind → Bool
valid_kind kind = ltb 0 (length (methods kind))
