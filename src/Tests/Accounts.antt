-- ===== src/Tests/Accounts.antt =====
-- Runs of the accounts over a database that is a list of documents and a counter.
use ey_ps.Prelude.{
  ℕ, ◌+◌, ◌<◌, ◌≡◌, refl, sym, map, same_refl, clash, ap, ◌∙◌, false, List, [], ◌∷◌, ◌++◌, Option,
  none, some, ◌==◌, ==_refl, if◌then◌else◌, same, arith, true, take, drop, ◌⊎◌, inl, ◌≢◌,
}
use ey_ps.Prelude.Int.{pos, negsuc}
use ey_ps.Prelude.Bytes.{codes}
use ey_ps.Database.Collections.{Document, Mongo, IsStore, filter, change_first, has_id, has_key}
use ey_ps.Database.{Account, no_account, next_ids}
use ey_ps.Database.Ids.{counted, next_ids-counted}
use ey_ps.Database.Keys.{Holds}
use ey_ps.Http.Objects.{login_ret}
use ey_ps.Http.Auth.{token_authenticate, LoginAccountReq, ComboTokenReq}
use ey_ps.Http.Auth.Sessions.{token_authenticate_exact}
use ey_ps.Http.Json.{Event}
use ey_ps.Http.Login.{Parser, handle_token_v, handle_login, handle_session_key}
use ey_ps.Http.Login.Combined.{Combines}
use ey_ps.Http.Login.Chain.{handle_logins}
use ey_ps.Http.Login.Verified.{Admits}
use mathlib.Core.Option

abbrev pub Data : Type 0
Data = List Document × Option ℕ

abbrev pub append_new : List Document → Document → Data → Option Data
append_new [] d db = some (db.0 ++ (d ∷ []), db.1)
append_new (x ∷ xs) d db = none

abbrev pub list_mongo : Mongo
list_mongo = record {
  Db = Data;
  find_all = λ db. db.0;
  find_by_name = λ name db. filter (λ d. same d.username name) db.0;
  find_by_id = λ id db. filter (has_id id) db.0;
  insert_account = λ d db. append_new (filter (has_id d.id) db.0) d db;
  update_session_key =
      λ old new db. (change_first (has_key old) (λ d. record d { session_key = new }) db.0, db.1);
  update_token = λ old new db.
      (change_first (λ d. same d.token old) (λ d. record d { token = new }) db.0, db.1);
  counter = λ db. db.1;
  insert_counter = λ n db. (db.0, some n);
  update_counter = λ old new db. (db.0, Option.map (λ c. if c == old then new else c) db.1);
}

recount :
    (old new : ℕ) (c : Option ℕ)
    → c ≡ some old
    → Option.map (λ c. if c == old then new else c) c ≡ some new
recount old new c e = rw (e, ==_refl old)

pub list_mongo-IsStore : IsStore list_mongo
list_mongo-IsStore = record {
  find_by_id-filter = λ id db. refl;
  update_session_key-first = λ old new db. refl;
  counter-insert = λ n db e. refl;
  counter-update = λ old new db e. recount old new db.1 e;
}

next_ids-counted_example :
    (db' : Data) × (next_ids list_mongo 3 ([], none) ≡ some (counted 3 100, db'))
next_ids-counted_example =
    next_ids-counted list_mongo list_mongo-IsStore 3 ([], none) refl (omega arith)

-- The database after the first account was made, and the account as it is in memory.
abbrev pub stored : Document
stored = record {
  id = codes "100";
  username = codes "paimon";
  reserved_player_id = pos 0;
  token = codes "ab";
  session_key = codes "";
  ban_end_time = pos 0;
  ban_start_time = pos 0;
  is_banned = false;
}

abbrev paimon : Account
paimon = record no_account { id = codes "100"; username = codes "paimon"; token = codes "ab" }

stored-Holds : Holds list_mongo list_mongo-IsStore paimon (stored ∷ [], some 100)
stored-Holds = record { document = stored; only = refl; first = refl }

-- A request is an id of three characters, a space and a key.
abbrev pub spaced : Parser
spaced = record {
  Doc = List ℕ;
  parse = λ body. body;
  get_string = λ name doc. some (if same name (codes "uid") then take 3 doc else drop 4 doc);
  get_bool = λ name doc. some true;
  get_int = λ name doc. some (pos 0);
}

-- A token that is not the key of the account.
token_authenticate_exact_example :
    ((codes "zz" ≡ codes "")
      × (token_authenticate list_mongo
            (record { uid = codes "100"; token = codes "zz" })
            login_ret
            (stored ∷ [], some 100)
          ≡ record login_ret { message = codes "OK"; uid = codes "100"; token = codes "zz" }))
    ⊎ ((codes "zz" ≢ codes "")
        × (token_authenticate list_mongo
              (record { uid = codes "100"; token = codes "zz" })
              login_ret
              (stored ∷ [], some 100)
            ≡ record login_ret { retcode = negsuc 200; message = codes "account_cache_error" }))
unfolding ey_ps.Prelude.Bytes.c_string
token_authenticate_exact_example =
    token_authenticate_exact list_mongo list_mongo-IsStore (codes "100") (codes "zz")
      (stored ∷ [], some 100) login_ret stored refl (λ e. cc)

-- The three requests of one client, to a database that has its account.
abbrev login_req : LoginAccountReq
login_req = record { account = codes "paimon"; password = codes "paimon"; is_crypto = true }

abbrev combo_req : ComboTokenReq
combo_req = record {
  device = codes "100 f00d";
  sign = [];
  uid = codes "100";
  token = codes "f00d";
  app_id = pos 0;
  channel_id = pos 0;
  guest = true;
}

handle_logins_example :
    (es1 : List Event) × (es2 : List Event) × (es3 : List Event) × (db1 : Data) × (db2 : Data)
    × (handle_login spaced list_mongo [] (codes "f00d") (codes "100 paimon") (stored ∷ [], some 100)
        ≡ some (es1, db1))
    × Admits (codes "100") (codes "f00d") es1
    × (handle_token_v spaced list_mongo (codes "100 f00d") db1 ≡ some es2)
    × Admits (codes "100") (codes "f00d") es2
    × (handle_session_key spaced list_mongo (codes "beef") (codes "xxx 100 f00d") db1
        ≡ some (es3, db2))
    × Combines (codes "100") (codes "beef") es3
unfolding ey_ps.Prelude.Bytes.c_string ey_ps.Http.Login.read_account_req
    ey_ps.Http.Login.read_token_req ey_ps.Http.Login.read_combo_req Option.bind
handle_logins_example =
    handle_logins spaced list_mongo list_mongo-IsStore [] (codes "f00d") (codes "beef")
      (stored ∷ [], some 100) stored (codes "100 paimon") (codes "100 f00d") (codes "xxx 100 f00d")
      login_req combo_req refl stored-Holds (λ e. cc) (λ e. cc) refl refl refl refl refl refl
