-- ===== src/Tests/Logins.antt =====
-- Runs of the logins over a database that is a list of documents and a counter.
use ey_ps.Prelude.{
  ℕ, ◌+◌, ◌<◌, ◌≡◌, refl, sym, map, same_refl, clash, ap, ◌∙◌, false, List, [], ◌∷◌, ◌++◌, Option,
  none, some, ◌==◌, ==_refl, if◌then◌else◌, same, arith, true, take, drop, ◌⊎◌, inl, ◌≢◌,
}
use ey_ps.Prelude.Int.{pos, negsuc}
use ey_ps.Prelude.Bytes.{codes}
use ey_ps.Database.Collections.{Document, filter, has_id}
use ey_ps.Database.{Account, no_account, next_ids, generate_session_key}
use ey_ps.Http.Objects.{LoginRet, login_ret, ComboTokenRes, combo_token_res}
use ey_ps.Http.Auth.Reach.{Step, Reachable, Reachable-IsSound}
use ey_ps.Http.Auth.Passwords.{pwd_authenticate-IsSound}
use ey_ps.Database.Distinct.{Absent, Absent-filter}
use ey_ps.Database.Sound.{id_of, IsSound, IsAccountStore}
use ey_ps.Prelude.Options.{of_some, none-ne-some}
use ey_ps.Http.Auth.{
  token_authenticate, pwd_authenticate, session_key_authenticate, LoginAccountReq, ComboTokenReq,
}
use mathlib.Core.Option
use ey_ps.Tests.Accounts.{Data, append_new, list_mongo, list_mongo-IsStore, stored}

found_new :
    (d : Document) (db db' : Data) (found : List Document)
    → filter (has_id d.id) db.0 ≡ found
    → append_new found d db ≡ some db'
    → (db'.0 ≡ db.0 ++ (d ∷ [])) × Absent d.id (map id_of db.0)
found_new d db db' [] e h =
    (sym (ap {A = Data} (λ x. x.0) (of_some h)), Absent-filter id_of d.id db.0 e)
found_new d db db' (x ∷ xs) e h = absurd (none-ne-some h)

list_mongo-IsAccountStore : IsAccountStore list_mongo
list_mongo-IsAccountStore = record {
  store = list_mongo-IsStore;
  find_by_name-filter = λ name db. refl;
  update_token-first = λ old new db. refl;
  inserted = λ d db db' h. found_new d db db' (filter (has_id d.id) db.0) refl h;
  counter_apart = λ n db. refl;
  count_apart = λ old new db. refl;
}

-- A database with one account that is logged in, and a login with another name.
abbrev keyed : Document
keyed = record stored { session_key = codes "f00d" }

abbrev lumine : Document
lumine = record stored {
  id = codes "101";
  username = codes "lumine";
  token = codes "cd";
  session_key = codes "beef";
}

keyed-IsSound : IsSound (keyed ∷ [])
unfolding ey_ps.Prelude.Bytes.c_string
keyed-IsSound = record {
  ids = (tt, tt);
  names = (tt, tt);
  keys = (tt, tt);
  identified = (λ e. cc, tt);
  named = (λ e. cc, tt);
  keyed = (λ e. cc, tt);
  clean = ((refl, refl, refl), tt);
}

abbrev lumine_req : LoginAccountReq
lumine_req = record { account = codes "lumine"; password = []; is_crypto = true }

abbrev lumine_ret : LoginRet
lumine_ret = record login_ret {
  message = codes "OK";
  uid = codes "101";
  name = codes "lumine";
  token = codes "beef";
}

lumine_logs_in :
    pwd_authenticate list_mongo lumine_req
      (codes "cd")
      (codes "beef")
      login_ret
      (keyed ∷ [], some 100)
    ≡ some (lumine_ret, (keyed ∷ lumine ∷ [], some 101))
unfolding pwd_authenticate ey_ps.Prelude.Bytes.c_string ey_ps.Prelude.Decimal.to_string
    ey_ps.Database.get_account_by_name ey_ps.Database.create_account_with_uid
    ey_ps.Database.check_if_account_exists ey_ps.Database.get_next_id ey_ps.Database.save_account
    generate_session_key ey_ps.Database.generate_login_token Option.bind
lumine_logs_in = refl

apart : (x y : List ℕ) → same x y ≡ false → x ≢ y
apart x y h e = clash (ap (λ z. same z y) e ∙ same_refl y) h

pwd_authenticate-IsSound_example :
    IsSound (keyed ∷ lumine ∷ [])
    × (token_authenticate list_mongo
          (record { uid = codes "101"; token = codes "beef" })
          login_ret
          (keyed ∷ lumine ∷ [], some 101)
        ≡ record login_ret { message = codes "OK"; uid = codes "101"; token = codes "beef" })
unfolding ey_ps.Prelude.Bytes.c_string
pwd_authenticate-IsSound_example =
    pwd_authenticate-IsSound list_mongo list_mongo-IsAccountStore lumine_req (codes "cd")
      (codes "beef") (keyed ∷ [], some 100) (keyed ∷ lumine ∷ [], some 101) lumine_ret keyed-IsSound
      (λ e. cc) (λ e. cc) refl (apart (codes "f00d") (codes "beef") refl, tt) lumine_logs_in

-- From no accounts to one, with the logins of its client.
abbrev first : Document
first = record lumine { token = codes "cd" }

first_logs_in :
    pwd_authenticate list_mongo lumine_req (codes "cd") (codes "beef") login_ret ([], some 100)
    ≡ some (lumine_ret, (first ∷ [], some 101))
unfolding pwd_authenticate ey_ps.Prelude.Bytes.c_string ey_ps.Prelude.Decimal.to_string
    ey_ps.Database.get_account_by_name ey_ps.Database.create_account_with_uid
    ey_ps.Database.check_if_account_exists ey_ps.Database.get_next_id ey_ps.Database.save_account
    generate_session_key ey_ps.Database.generate_login_token Option.bind
first_logs_in = refl

lumine_combo : ComboTokenReq
lumine_combo = record {
  device = [];
  sign = [];
  uid = codes "101";
  token = codes "beef";
  app_id = pos 0;
  channel_id = pos 0;
  guest = true;
}

first_combines :
    (res : ComboTokenRes) × (session_key_authenticate list_mongo lumine_combo
        (codes "ef")
        combo_token_res
        (first ∷ [], some 101)
      ≡ (res, (record first { token = codes "ef" } ∷ [], some 101)))
unfolding session_key_authenticate lumine_combo ey_ps.Prelude.Bytes.c_string
    ey_ps.Database.get_account_by_id ey_ps.Database.check_account_by_id
    ey_ps.Database.generate_login_token
first_combines = (_, refl)

combined_reachable : Reachable list_mongo (record first { token = codes "ef" } ∷ [], some 101)
unfolding ey_ps.Prelude.Bytes.c_string
combined_reachable =
    Reachable.after
      (Reachable.after (Reachable.empty {db = ([], some 100)} refl) (
        Step.password lumine_req (codes "cd") (codes "beef") lumine_ret (λ e. cc) (λ e. cc) refl tt
          first_logs_in))
      (Step.session_key lumine_combo (codes "ef") first_combines.0 first_combines.1)

Reachable-IsSound_example :
    IsSound (record first { token = codes "ef" } ∷ [])
    × (token_authenticate list_mongo
          (record { uid = codes "101"; token = codes "beef" })
          login_ret
          (record first { token = codes "ef" } ∷ [], some 101)
        ≡ record login_ret { message = codes "OK"; uid = codes "101"; token = codes "beef" })
Reachable-IsSound_example =
    Reachable-IsSound list_mongo list_mongo-IsAccountStore
      (record first { token = codes "ef" } ∷ [], some 101) (record first { token = codes "ef" })
      combined_reachable (inl refl)

-- A login without a name, and then one with a new name: the key of the second goes to the document
-- that the first has left behind, and the token login refuses it.
abbrev nobody_req : LoginAccountReq
nobody_req = record { account = []; password = []; is_crypto = true }

after_nobody :
    (x : LoginRet × Data) × (pwd_authenticate list_mongo nobody_req
        (codes "cd")
        (codes "f00d")
        login_ret
        ([], some 100)
      ≡ some x)
unfolding pwd_authenticate ey_ps.Prelude.Bytes.c_string ey_ps.Prelude.Decimal.to_string
    ey_ps.Database.get_account_by_name ey_ps.Database.create_account_with_uid
    ey_ps.Database.check_if_account_exists ey_ps.Database.get_next_id ey_ps.Database.save_account
    generate_session_key ey_ps.Database.generate_login_token Option.bind
after_nobody = (_, refl)

after_both :
    (x : LoginRet × Data) × (pwd_authenticate list_mongo lumine_req
        (codes "cd")
        (codes "beef")
        login_ret
        after_nobody.0.1
      ≡ some x)
unfolding pwd_authenticate ey_ps.Prelude.Bytes.c_string ey_ps.Prelude.Decimal.to_string
    ey_ps.Database.get_account_by_name ey_ps.Database.create_account_with_uid
    ey_ps.Database.check_if_account_exists ey_ps.Database.get_next_id ey_ps.Database.save_account
    generate_session_key ey_ps.Database.generate_login_token Option.bind after_nobody
after_both = (_, refl)

refused_after_nobody :
    (after_both.0.0.uid ≡ codes "102")
    × (after_both.0.0.token ≡ codes "beef")
    × (token_authenticate list_mongo
          (record { uid = codes "102"; token = codes "beef" })
          login_ret
          after_both.0.1
        ≡ record login_ret { retcode = negsuc 200; message = codes "account_cache_error" })
unfolding token_authenticate ey_ps.Prelude.Bytes.c_string ey_ps.Database.get_account_by_id
    ey_ps.Database.check_account_by_id after_nobody after_both
refused_after_nobody = (refl, refl, refl)
