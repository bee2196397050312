-- ===== src/Http/Login/Chain.antt =====
-- The three logins of http/LoginHandler.h, one after the other: the answer of each is what the next
-- asks for.
use ey_ps.Prelude.{ℕ, ◌≡◌, ◌≢◌, refl, sym, ap, subst, ◌∙◌, List, [], ◌∷◌, some}
use ey_ps.Prelude.Bytes.{codes, c_string, c_string_twice}
use ey_ps.Http.Auth.Known.{known, known_by_name, known_logs_in}
use ey_ps.Database.Collections.{Document, Mongo, IsStore, has_id}
use ey_ps.Database.{no_account, get_account_by_id, generate_session_key, generate_login_token}
use ey_ps.Database.Keys.{Holds}
use ey_ps.Http.Json.{Event}
use ey_ps.Http.Objects.{
  LoginRet, login_ret, account_json, ComboTokenRes, combo_token_res, combo_token_json,
}
use ey_ps.Http.Auth.{
  LoginAccountReq, LoginTokenReq, ComboTokenReq, token_verdict, logged_in, pwd_authenticate,
  token_authenticate, session_key_authenticate,
}
use ey_ps.Http.Auth.Sessions.{fresh_account, token_authenticate-fresh}
use ey_ps.Http.Login.{
  Parser, document, read_account_req, read_token_req, read_combo_req, handle_login, handle_token_v,
  handle_session_key,
}
use ey_ps.Http.Login.Verified.{Admits}
use ey_ps.Http.Login.Combined.{
  verdict_of, combined, combines, filtered_some, Combines, admitted, combined-Combines,
}
use mathlib.Core.Option

module _ (parser : Parser) (mongo : Mongo) where
  handle_login-eq :
      (login_token session_key body : List ℕ) (db db' : mongo.Db) (req : LoginAccountReq)
      (ret : LoginRet)
      → read_account_req parser mongo (document parser mongo body) ≡ some req
      → pwd_authenticate mongo req login_token session_key login_ret db ≡ some (ret, db')
      → handle_login parser mongo login_token session_key body db ≡ some (account_json ret, db')
  unfolding handle_login Option.bind
  handle_login-eq login_token session_key body db db' req ret r e = rw (r, e)

  handle_token_v-eq :
      (body : List ℕ) (db : mongo.Db) (req : LoginTokenReq) (ret : LoginRet)
      → read_token_req parser mongo (document parser mongo body) ≡ some req
      → token_authenticate mongo req login_ret db ≡ ret
      → handle_token_v parser mongo body db ≡ some (account_json ret)
  unfolding handle_token_v Option.bind
  handle_token_v-eq body db req ret r e = rw (r, e)

  handle_session_key-eq :
      (login_token body : List ℕ) (db db' : mongo.Db) (req : ComboTokenReq) (res : ComboTokenRes)
      → read_combo_req parser mongo (document parser mongo body) ≡ some req
      → session_key_authenticate mongo req login_token combo_token_res db ≡ (res, db')
      → handle_session_key parser mongo login_token body db ≡ some (combo_token_json res, db')
  unfolding handle_session_key Option.bind
  handle_session_key-eq login_token body db db' req res r e = rw (r, e)

module _ (parser : Parser) (mongo : Mongo) (store : IsStore mongo) where
  -- The three logins of a client whose name one document of the database has: each is answered by a
  -- JSON document with the code 0 and the message OK, the password login, whatever the password, with
  -- the account's id and a new session key, the token login for that id and key with the same, and
  -- the login with the session key with the id and a new token. The account's id and name are not
  -- empty, its document is the only one with its id and the first with its old session key, and the
  -- new session key has no zero in it.
  pub handle_logins :
      (login_token session_key combo_token : List ℕ) (db : mongo.Db) (d : Document)
      (body1 body2 body3 : List ℕ) (req1 : LoginAccountReq) (req3 : ComboTokenReq)
      → mongo.find_by_name (c_string req1.account) db ≡ d ∷ []
      → Holds mongo store (known mongo d) db
      → c_string d.username ≢ []
      → c_string d.id ≢ []
      → c_string session_key ≡ session_key
      → read_account_req parser mongo (document parser mongo body1) ≡ some req1
      → read_token_req parser mongo (document parser mongo body2)
        ≡ some (record { uid = c_string d.id; token = session_key })
      → read_combo_req parser mongo (document parser mongo body3) ≡ some req3
      → req3.uid ≡ c_string d.id
      → req3.token ≡ session_key
      → (es1 : List Event) × (es2 : List Event) × (es3 : List Event) × (db1 : mongo.Db)
        × (db2 : mongo.Db) × (handle_login parser mongo login_token session_key body1 db
            ≡ some (es1, db1))
        × Admits (c_string d.id) session_key es1
        × (handle_token_v parser mongo body2 db1 ≡ some es2)
        × Admits (c_string d.id) session_key es2
        × (handle_session_key parser mongo combo_token body3 db1 ≡ some (es3, db2))
        × Combines (c_string d.id) (c_string combo_token) es3
  unfolding generate_session_key
  handle_logins login_token session_key combo_token db d body1 body2 body3 req1 req3 named h
        username id key r1 r2 r3 u3 t3 =
      let account = known mongo d in
      let cid = c_string_twice d.id in
      let read =
        known_by_name mongo req1.account db d named
          (filtered_some mongo (has_id account.id) (mongo.find_all db) h.only) in
      let (ret, db1) = logged_in mongo session_key login_ret account db in
      let in' = known_logs_in mongo req1 login_token session_key db d read username in
      let verified =
        token_authenticate-fresh mongo store session_key account db login_ret h id cid key in
      let (a, read3, hi, hk) = fresh_account mongo store session_key account db h cid key in
      let third =
        combines mongo req3 combo_token db1 a
          (ap (λ u. get_account_by_id mongo u db1 no_account) u3 ∙ read3)
          (ap (token_verdict a) t3 ∙ verdict_of mongo a account.id session_key hi hk id) in
      (
        account_json ret,
        account_json
            (record login_ret { message = codes "OK"; uid = c_string d.id; token = session_key }),
        combo_token_json (combined mongo a.id combo_token),
        db1,
        (generate_login_token mongo combo_token a db1).1,
        handle_login-eq parser mongo login_token session_key body1 db db1 req1 ret r1 in',
        admitted ret (c_string d.id) session_key refl refl cid key,
        handle_token_v-eq parser mongo body2 db1 _ _ r2 verified,
        admitted _ (c_string d.id) session_key refl refl cid key,
        handle_session_key-eq parser mongo combo_token body3 db1 _ req3 _ r3 third,
        subst
            (λ i.
              Combines i (c_string combo_token)
                (combo_token_json (combined mongo a.id combo_token)))
            hi (combined-Combines mongo a.id combo_token (ap c_string hi ∙ cid ∙ sym hi)),
      )
