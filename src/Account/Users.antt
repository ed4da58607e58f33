-- ===== src/Account/Users.antt =====
-- `UserRepo`: services/tracking-gateway/internal/storage/postgres/user_repo.go.
use wrany.Prelude.{◌||◌, Bool, String, [], ◌∷◌, ◌++◌, Uuid, str_eq, ◌==◌}
use wrany.Store.Tables.{any, find?}
use wrany.Account.Tables.{User, AccountError, AccountDb, Call, select, insert}

abbrev pub is_taken : User → User → Bool
is_taken u v = v.id == u.id || str_eq v.email u.email

abbrev pub has_email : String → User → Bool
has_email email u = str_eq u.email email

unfoldable pub create : User → Call AccountDb (Unit {0})
create u =
    insert (λ db. any (is_taken u) db.users) AccountError.err_email_taken
      λ db. record db { users = db.users ++ u ∷ [] }

unfoldable pub find_by_email : String → Call AccountDb User
find_by_email email =
    select (λ db. find? (has_email email) db.users) AccountError.err_user_not_found

unfoldable pub find_by_id : Uuid → Call AccountDb User
find_by_id id =
    select (λ db. find? (λ (u : User). u.id == id) db.users) AccountError.err_user_not_found
