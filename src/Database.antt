-- ===== src/Database.antt =====
-- `Account` of database/Account.h and database/Account.cpp, and `databaseHelper` of
-- database/databaseHelper.h and database/databaseHelper.cpp.
pub mod Collections
pub mod Ids
pub mod Keys
pub mod Manager
pub mod Distinct
pub mod Sound
use ey_ps.Prelude.{
  ℕ, zero, suc, ◌+◌, ◌-◌, ◌^◌, Bool, true, false, not, ◌||◌, List, [], ◌∷◌, Option, none, some,
  if◌then◌else◌, ltb,
}
use ey_ps.Prelude.Int.{ℤ, pos, is_positive}
use ey_ps.Prelude.Bytes.{c_string}
use ey_ps.Prelude.Decimal.{to_string}
use Collections.{Document, Mongo}
use mathlib.Core.Option

pub record Account : Type 0 where
  pub id : List ℕ
  pub session_key : List ℕ
  pub username : List ℕ
  pub password : List ℕ
  pub token : List ℕ
  pub reserved_player_id : ℤ
  pub ban_start_time : ℤ
  pub ban_end_time : ℤ
  pub is_banned : Bool

-- Account()
abbrev pub no_account : Account
no_account = record {
  id = [];
  session_key = [];
  username = [];
  password = [];
  token = [];
  reserved_player_id = pos 0;
  ban_start_time = pos 0;
  ban_end_time = pos 0;
  is_banned = false;
}

-- isBan
abbrev pub is_ban : Account → Bool
is_ban account = false

module _ (mongo : Mongo) where
  -- generateSessionKey, where createToken returns `fresh`
  unfoldable pub generate_session_key : List ℕ → Account → mongo.Db → Account × mongo.Db
  generate_session_key fresh account db = (
    record account { session_key = fresh },
    mongo.update_session_key account.session_key fresh db,
  )

  -- generateLoginToken; the token passes through c_str().
  unfoldable pub generate_login_token : List ℕ → Account → mongo.Db → Account × mongo.Db
  generate_login_token fresh account db = (
    record account { token = c_string fresh },
    mongo.update_token account.token (c_string fresh) db,
  )

  -- The assignments that getAccountInfo and getAccountInfoById make for each document found.
  abbrev pub read_documents : List Document → Account → Account
  read_documents [] account = account
  read_documents (doc ∷ docs) account = read_documents docs (record account {
    id = c_string doc.id;
    session_key = c_string doc.session_key;
    username = c_string doc.username;
    reserved_player_id = doc.reserved_player_id;
    token = c_string doc.token;
  })

  abbrev pub get_account_info : List ℕ → mongo.Db → Account → Account
  get_account_info name db account = read_documents (mongo.find_by_name (c_string name) db) account

  abbrev pub get_account_info_by_id : List ℕ → mongo.Db → Account → Account
  get_account_info_by_id uid db account =
      read_documents (mongo.find_by_id (c_string uid) db) account

  -- !coll.find_one(…)
  abbrev pub is_nothing : List Document → Bool
  is_nothing [] = true
  is_nothing (doc ∷ docs) = false

  unfoldable pub check_if_account_exists : List ℕ → mongo.Db → Bool
  check_if_account_exists name db =
      not (is_nothing (mongo.find_all db) || is_nothing (mongo.find_by_name (c_string name) db))

  unfoldable pub check_account_by_id : List ℕ → mongo.Db → Bool
  check_account_by_id uid db = not (is_nothing (mongo.find_by_id (c_string uid) db))

  unfoldable pub get_account_by_name : List ℕ → mongo.Db → Account → Account
  unfolding check_if_account_exists
  get_account_by_name name db account =
      if check_if_account_exists name db then get_account_info name db account else account

  unfoldable pub get_account_by_id : List ℕ → mongo.Db → Account → Account
  unfolding check_account_by_id
  get_account_by_id uid db account =
      if check_account_by_id uid db then get_account_info_by_id uid db account else account

  -- getNextId: `count_ + 1` overflows at the largest int, which is undefined behaviour.
  abbrev pub next_id : Option ℕ → mongo.Db → Option (ℕ × mongo.Db)
  next_id none db = some (100, mongo.insert_counter 100 db)
  next_id (some count) db =
      if ltb (count + 1) (2 ^ 31)
      then some (count + 1, mongo.update_counter count (count + 1) db)
      else none

  unfoldable pub get_next_id : mongo.Db → Option (ℕ × mongo.Db)
  get_next_id db = next_id (mongo.counter db) db

  -- What saveAccount inserts.
  abbrev pub document_of : Account → Document
  document_of account = record {
    id = c_string account.id;
    username = c_string account.username;
    reserved_player_id = account.reserved_player_id;
    token = c_string account.token;
    session_key = c_string account.session_key;
    ban_end_time = account.ban_end_time;
    ban_start_time = account.ban_start_time;
    is_banned = is_ban account;
  }

  -- saveAccount, where createToken returns `fresh`; `none` is the exception of insert_one.
  unfoldable pub save_account : List ℕ → Account → mongo.Db → Option (Account × mongo.Db)
  unfolding generate_login_token
  save_account fresh account db =
      let (account', db') = generate_login_token fresh account db in
      Option.map (λ db''. (account', db'')) (mongo.insert_account (document_of account') db')

  abbrev pub named : List ℕ → ℕ → ℤ → Account → Account
  named name id reserved_uid account =
      let account' = record account { username = c_string name; id = to_string id } in
      if is_positive reserved_uid
      then record account' { reserved_player_id = reserved_uid }
      else account'

  unfoldable pub create_account_with_uid :
      List ℕ → ℤ → List ℕ → Account → mongo.Db → Option (Account × mongo.Db)
  unfolding save_account get_next_id
  create_account_with_uid name reserved_uid fresh account db =
      if check_if_account_exists name db
      then some (account, db)
      else Option.bind (get_next_id db)
          λ (id, db'). save_account fresh (named name id reserved_uid account) db'

  -- So many calls of getNextId, one after the other.
  unfoldable pub next_ids : ℕ → mongo.Db → Option (List ℕ × mongo.Db)
  unfolding get_next_id
  next_ids zero db = some ([], db)
  next_ids (suc calls) db =
      Option.bind (get_next_id db)
        λ (id, db'). Option.map (λ (ids, last). (id ∷ ids, last)) (next_ids calls db')
