-- ===== src/Handlers/Requests.antt =====
-- handlers/http/rbac.rs and role.rs: the requests that change users and roles as one step relation.
use parseable.Prelude.{String, List}
use parseable.Rbac.Role.{DefaultPrivilege}
use parseable.Handlers.{System, Io}
use parseable.Handlers.Users.{
  Body, post_user, post_gen_password, delete_user, add_roles_to_user, remove_roles_from_user,
}
use parseable.Handlers.Roles
use parseable.Handlers.Roles.{put_default}

-- A request with what the storage does while it runs, and the password and hash that it draws.
pub data Request : Type 0 where
  creates_user : (io io_roles : Io) (password hash username : String) (body : Body) → Request
  resets_password : (io : Io) (password hash username : String) → Request
  deletes_user : (io : Io) (id : String) → Request
  adds_roles removes_roles : (io : Io) (id : String) (roles : List String) → Request
  puts_role : (io : Io) (name : String) (privileges : List DefaultPrivilege) → Request
  deletes_role puts_default_role : (io : Io) (name : String) → Request

unfoldable pub serve : (String → String) → Request → System → System
unfolding post_user post_gen_password delete_user add_roles_to_user remove_roles_from_user Roles.put
    Roles.delete put_default
serve to_lowercase (creates_user io io_roles password hash username body) sys =
    (post_user to_lowercase io io_roles sys password hash username body).1
serve to_lowercase (resets_password io password hash username) sys =
    (post_gen_password io sys password hash username).1
serve to_lowercase (deletes_user io id) sys = (delete_user io sys id).1
serve to_lowercase (adds_roles io id roles) sys = (add_roles_to_user io sys id roles).1
serve to_lowercase (removes_roles io id roles) sys = (remove_roles_from_user io sys id roles).1
serve to_lowercase (puts_role io name privileges) sys =
    (Roles.put io sys to_lowercase name privileges).1
serve to_lowercase (deletes_role io name) sys = (Roles.delete io sys name).1
serve to_lowercase (puts_default_role io name) sys = (put_default io sys name).1

-- What the server can come to, request by request.
pub data Served (to_lowercase : String → String) (allowed : Request → Type 0)
    : System → System → Type 0 where
  start : {sys : System} → Served to_lowercase allowed sys sys
  next :
      {sys before : System} (request : Request)
      → allowed request
      → Served to_lowercase allowed sys before
      → Served to_lowercase allowed sys (serve to_lowercase request before)
