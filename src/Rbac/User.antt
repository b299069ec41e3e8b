-- ===== src/Rbac/User.antt =====
-- rbac/user.rs: users, and the groups that they belong to. A `HashSet` is a list; `extend` keeps
-- the element that is there, as `HashSet::extend` does. Left out of `OAuth` and `UserInfo` are the
-- bearer token and the profile fields that no modelled function reads.
pub mod Sets
use parseable.Prelude.{
  string_eq, Bool, true, false, not, Option, none, some, List, [], ◌∷◌, ◌++◌, Eq, ◌==◌, String,
  if◌then◌else◌, contains, retain, all,
}

pub record UserInfo : Type 0 where
  pub sub : Option String
  pub name : Option String
  pub email : Option String

pub record Basic : Type 0 where
  pub username : String
  pub password_hash : String

pub record OAuth : Type 0 where
  pub userid : String
  pub user_info : UserInfo

pub data UserType : Type 0 where
  native : Basic → UserType
  oauth : OAuth → UserType

pub record User : Type 0 where
  pub ty : UserType
  pub roles : List String
  pub user_groups : List String

-- `HashSet::extend` and `HashSet::difference`
module _ {ℓ} {A : Type ℓ} ⦃e : Eq A⦄ where
  unfoldable pub set_insert : List A → A → List A
  set_insert xs a = if contains xs a then xs else xs ++ a ∷ []

  unfoldable pub extend : List A → List A → List A
  extend xs [] = xs
  extend xs (a ∷ more) = extend (set_insert xs a) more

  unfoldable pub difference : List A → List A → List A
  difference xs ys = retain (λ x. not (contains ys x)) xs

  unfoldable pub intersection : List A → List A → List A
  intersection xs ys = retain (λ x. contains ys x) xs

  -- `HashSet::eq` on sets: each is a part of the other.
  unfoldable pub set_eq : List A → List A → Bool
  set_eq xs ys = if all (contains ys) xs then all (contains xs) ys else false

-- `User::new_basic`, given the hash of the password that was drawn.
unfoldable pub new_basic : String → String → User
new_basic username hash = record {
  ty = native (record { username = username; password_hash = hash });
  roles = [];
  user_groups = [];
}

abbrev unwrap_or : Option String → String → String
unwrap_or none d = d
unwrap_or (some x) d = x

unfoldable pub new_oauth : String → List String → UserInfo → User
new_oauth userid roles user_info = record {
  ty = oauth (record { userid = unwrap_or user_info.sub userid; user_info = user_info });
  roles = roles;
  user_groups = [];
}

abbrev pub userid_of_type : UserType → String
userid_of_type (native b) = b.username
userid_of_type (oauth o) = o.userid

unfoldable pub userid : User → String
userid u = userid_of_type u.ty

abbrev username_of_type : UserType → String
username_of_type (native b) = b.username
username_of_type (oauth o) = unwrap_or o.user_info.name (unwrap_or o.user_info.email o.userid)

unfoldable pub username_by_userid : User → String
username_by_userid u = username_of_type u.ty

abbrev type_is_oauth : UserType → Bool
type_is_oauth (native b) = false
type_is_oauth (oauth o) = true

unfoldable pub is_oauth : User → Bool
is_oauth u = type_is_oauth u.ty

pub record GroupUser : Type 0 where
  pub userid : String
  pub username : String
  pub method : String

-- `PartialEq for GroupUser` compares the ids alone.
unfoldable pub same_group_user : GroupUser → GroupUser → Bool
same_group_user a b = a.userid == b.userid

unfoldable pub from_user : User → GroupUser
unfolding userid username_by_userid is_oauth
from_user u = record {
  userid = userid u;
  username = username_by_userid u;
  method = if is_oauth u then "oauth" else "native";
}

pub record UserGroup : Type 0 where
  pub name : String
  pub roles : List String
  pub users : List GroupUser
