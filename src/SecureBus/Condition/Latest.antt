-- ===== src/SecureBus/Condition/Latest.antt =====
-- The map of the latest statuses that a condition is checked against: one entry for an agent, with
-- the status of the agent's last attestation.
use synamcps_server.Prelude.{
  String, true, false, Option, some, List, [], ◌∷◌, ◌≡◌, inl, inr, refl, ◌∙◌, ◌||◌, if◌then◌else◌,
  any, length, keep, arith, eq_iff, Bool-cases,
}
use synamcps_server.Prelude.Strings.{◌=ˢ◌, contains}
use synamcps_server.Prelude.Maps.{Dict, lookup, insert, lookup-insert}
use synamcps_server.SecureBus.Condition.{AttestationView, latest_from, has_status}

-- The status of an agent's last attestation in a list.
abbrev pub last_status : String → List AttestationView → Option String → Option String
last_status agent [] found = found
last_status agent (a ∷ atts) found =
    last_status agent atts (if a.agent_name =ˢ agent then some a.status else found)

pub lookup-latest_from :
    (agent : String) (atts : List AttestationView) (latest : Dict String)
    → lookup agent (latest_from latest atts) ≡ last_status agent atts (lookup agent latest)
unfolding latest_from
lookup-latest_from agent [] latest = refl
lookup-latest_from agent (a ∷ atts) latest =
    lookup-latest_from agent atts (insert a.agent_name a.status latest) ∙ rw lookup-insert

unfoldable pub keys : Dict String → List String
keys [] = []
keys ((k, v) ∷ m) = k ∷ keys m

abbrev pub Distinct : List String → Type 0
Distinct [] = Unit
Distinct (x ∷ xs) = (contains xs x ≡ false) × Distinct xs

contains-keys-insert :
    (k v x : String) (m : Dict String)
    → contains (keys (insert k v m)) x ≡ (k =ˢ x || contains (keys m) x)
unfolding contains keys insert
contains-keys-insert k v x [] = ground arith
contains-keys-insert k v x ((j, w) ∷ m) =
    ground (arith, eq_iff j k, eq_iff k x, eq_iff j x, contains-keys-insert k v x m)

insert-Distinct :
    (k v : String) (m : Dict String) → Distinct (keys m) → Distinct (keys (insert k v m))
unfolding keys insert
insert-Distinct k v [] h = (unfold contains in refl, tt)
insert-Distinct k v ((j, w) ∷ m) h =
    ground (arith, eq_iff j k, eq_iff k j, contains-keys-insert k v j m, insert-Distinct k v m h.1)

pub latest_from-Distinct :
    (atts : List AttestationView) (latest : Dict String)
    → Distinct (keys latest)
    → Distinct (keys (latest_from latest atts))
unfolding latest_from
latest_from-Distinct [] latest h = h
latest_from-Distinct (a ∷ atts) latest h =
    latest_from-Distinct atts _ (insert-Distinct a.agent_name a.status latest h)

pub names_with : String → Dict String → List String
names_with status [] = []
names_with status ((n, st) ∷ m) =
    let rest = names_with status m in if st =ˢ status then n ∷ rest else rest

pub length-names_with :
    (status : String) (m : Dict String)
    → length (names_with status m) ≡ length (keep (has_status status) m)
unfolding names_with
length-names_with status [] = refl
length-names_with status ((n, st) ∷ m) = ground (arith, length-names_with status m)

contains-names_with :
    (status x : String) (m : Dict String)
    → contains (names_with status m) x ≡ true
    → contains (keys m) x ≡ true
unfolding names_with keys contains
contains-names_with status x [] h = h
contains-names_with status x ((n, st) ∷ m) h = ground (arith, contains-names_with status x m)

pub names_with-Distinct :
    (status : String) (m : Dict String) → Distinct (keys m) → Distinct (names_with status m)
unfolding names_with keys
names_with-Distinct status [] h = tt
names_with-Distinct status ((n, st) ∷ m) h =
    ground (arith, names_with-Distinct status m h.1, contains-names_with status n m)

pub names_with-lookup :
    (status x : String) (m : Dict String)
    → Distinct (keys m)
    → contains (names_with status m) x ≡ true
    → lookup x m ≡ some status
unfolding names_with keys contains lookup
names_with-lookup status x [] d h = absurd (ground arith)
names_with-lookup status x ((n, st) ∷ m) d h = ground (
  arith,
  eq_iff n x,
  eq_iff st status,
  names_with-lookup status x m d.1,
  contains-names_with status x m,
)

pub any-names_with :
    (status : String) (m : Dict String)
    → any (has_status status) m ≡ true
    → (n : String) × (contains (names_with status m) n ≡ true)
unfolding names_with contains
any-names_with status [] h = absurd (ground arith)
any-names_with status ((n, st) ∷ m) h = elim (Bool-cases (st =ˢ status)) [
  | inl same ↦ (n, rw same (ground (arith, eq_iff n n)))
  | inr other ↦ let (k, mem) = any-names_with status m (rw other at h) in (k, rw other mem)
]

pub lookup-any :
    (status n : String) (m : Dict String)
    → lookup n m ≡ some status
    → any (has_status status) m ≡ true
unfolding lookup
lookup-any status n [] h = absurd (ground arith)
lookup-any status n ((k, st) ∷ m) h =
    ground (arith, eq_iff k n, eq_iff st status, lookup-any status n m)
