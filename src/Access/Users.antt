-- ===== src/Access/Users.antt =====
-- The users of internal/access/store.go, with no database: the map in the order in which the runtime
-- goes over it, and what bcrypt answers for a hash and a password.
use synamcps_server.Prelude.{
  String, Bool, not, Option, none, some, List, ◌&&◌, ◌||◌, find?, if◌then◌else◌,
}
use synamcps_server.Prelude.Strings.{◌=ˢ◌}
use synamcps_server.Models.{User}

abbrev pub goes_by : String → User → Bool
goes_by username u =
    u.status =ˢ "active"
    && (u.email =ˢ username || u.id =ˢ username || u.external_subject =ˢ username)

-- `AuthenticateUser`
unfoldable pub authenticate_user :
    (String → String → Bool) → List User → String → String → Option User
authenticate_user compares users username password =
    if username =ˢ "" || password =ˢ "" then none else (elim (find? (goes_by username) users) [
      | none ↦ none
      | some u ↦
          if not (u.password_hash =ˢ "") && compares u.password_hash password then some u else none
    ])

-- `UserBySubjectKey`
unfoldable pub user_by_subject_key : List User → String → Option User
user_by_subject_key users subject_key = find? (λ u. u.subject_key =ˢ subject_key) users
