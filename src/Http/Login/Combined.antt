-- ===== src/Http/Login/Combined.antt =====
-- The third login of http/LoginHandler.h, and what its answer shows.
use ey_ps.Prelude.{
  ℕ, ◌≡◌, ◌≢◌, refl, ap, ◌∙◌, Bool, true, false, not, ◌&&◌, List, [], ◌∷◌, some, same, same_refl,
  if◌then◌else◌,
}
use ey_ps.Prelude.Int.{pos, negsuc}
use ey_ps.Prelude.Bytes.{codes, c_string, c_string_twice}
use ey_ps.Http.Auth.Known.{nonempty_is}
use ey_ps.Database.Collections.{Document, Mongo, filter}
use ey_ps.Database.{Account, no_account, get_account_by_id, is_nothing, generate_login_token}
use ey_ps.Http.Json.{Event, number, text, IsDocument}
use ey_ps.Http.Objects.{LoginRet, account_json, ComboTokenRes, combo_token_res, combo_token_json}
use ey_ps.Http.Objects.Shows.{value_at, account_json-shows, combo_token_json-shows}
use ey_ps.Http.Auth.{ComboTokenReq, is_empty, token_verdict, session_key_authenticate}
use ey_ps.Http.Login.Verified.{Admits}

module _ (mongo : Mongo) where
  pub verdict_of :
      (account : Account) (id token : List ℕ)
      → account.id ≡ id
      → account.session_key ≡ token
      → id ≢ []
      → token_verdict account token ≡ true
  verdict_of account id token hi hk h =
      ap (λ x. not (is_empty x) && same account.session_key token) hi
      ∙ ap (λ b. not b && same account.session_key token) (nonempty_is id h)
      ∙ ap (λ k. same k token) hk
      ∙ same_refl token

  -- The third login, for an account whose session key is the request's.
  abbrev pub combined : List ℕ → List ℕ → ComboTokenRes
  combined id login_token = record combo_token_res {
    message = codes "OK";
    open_id = id;
    combo_id = codes "123456789";
    combo_token = c_string login_token;
  }

  pub combines :
      (req : ComboTokenReq) (login_token : List ℕ) (db : mongo.Db) (account : Account)
      → get_account_by_id mongo req.uid db no_account ≡ account
      → token_verdict account req.token ≡ true
      → session_key_authenticate mongo req login_token combo_token_res db
        ≡ (combined account.id login_token, (generate_login_token mongo login_token account db).1)
  unfolding session_key_authenticate generate_login_token
  combines req login_token db account read verdict =
      let answer : Account → Bool → ComboTokenRes × mongo.Db = λ a b.
        if b
        then (combined a.id login_token, (generate_login_token mongo login_token a db).1)
        else (
          record combo_token_res {
            retcode = negsuc 200;
            message = codes "account_sessionKey_error";
          },
          db,
        ) in
      ap (λ a. answer a (token_verdict a req.token)) read ∙ ap (answer account) verdict

pub filtered_some :
    (mongo : Mongo) (p : Document → Bool) (ds : List Document) {d : Document}
    → filter p ds ≡ d ∷ []
    → is_nothing mongo ds ≡ false
filtered_some mongo p [] e = cc
filtered_some mongo p (d ∷ ds) e = refl

-- The answer of the third login to an id, with the token that the game server is given.
pub record Combines (id token : List ℕ) (es : List Event) : Type 0 where
  pub one_document : IsDocument es
  pub code : value_at (codes "retcode" ∷ []) es ≡ some (number (pos 0))
  pub said : value_at (codes "message" ∷ []) es ≡ some (text (codes "OK"))
  pub id_shown : value_at (codes "open_id" ∷ codes "data" ∷ []) es ≡ some (text id)
  pub token_shown : value_at (codes "combo_token" ∷ codes "data" ∷ []) es ≡ some (text token)

pub admitted :
    (r : LoginRet) (uid key : List ℕ)
    → r.retcode ≡ pos 0
    → r.message ≡ codes "OK"
    → c_string r.uid ≡ uid
    → c_string r.token ≡ key
    → Admits uid key (account_json r)
unfolding c_string
admitted r uid key hc hm hu hk =
    let (one, code, said, shown, name, token) = account_json-shows r in
    record {
      one_document = one;
      code = code ∙ ap (λ n. some (number n)) hc;
      said = said ∙ ap (λ t. some (text (c_string t))) hm;
      uid_shown = shown ∙ ap (λ t. some (text t)) hu;
      key_shown = token ∙ ap (λ t. some (text t)) hk;
    }

pub combined-Combines :
    (mongo : Mongo) (id token : List ℕ)
    → c_string id ≡ id
    → Combines id (c_string token) (combo_token_json (combined mongo id token))
unfolding c_string
combined-Combines mongo id token hi =
    let (one, code, said, combo, open_id, shown) =
      combo_token_json-shows (combined mongo id token) in
    record {
      one_document = one;
      code = code;
      said = said;
      id_shown = open_id ∙ ap (λ t. some (text t)) hi;
      token_shown = shown ∙ ap (λ t. some (text t)) (c_string_twice token);
    }
