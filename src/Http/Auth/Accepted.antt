-- ===== src/Http/Auth/Accepted.antt =====
-- What a login of http/auth leaves in the database, and what the token authenticator then accepts.
use ey_ps.Prelude.{
  ℕ, ◌≡◌, ◌≢◌, inl, inr, sym, ap, subst, ◌∙◌, Bool, List, [], ◌∷◌, ◌++◌, map, some, All, Bool-cases,
  same, same_refl, same→eq,
}
use ey_ps.Prelude.Bytes.{codes, c_string}
use ey_ps.Prelude.Options.{of_some, none-ne-some}
use ey_ps.Database.Collections.{Document, Mongo, filter, change_first, has_id, has_key}
use ey_ps.Database.Keys.{first_with}
use ey_ps.Database.Distinct.{Absent, In, Absent-ne, filter_only}
use ey_ps.Database.Sound.{id_of, key_of, Clean, IsSound, IsAccountStore}
use ey_ps.Http.Objects.{LoginRet, login_ret}
use ey_ps.Http.Auth.{token_authenticate}
use ey_ps.Http.Auth.Sessions.{token_authenticate_exact}

pub Clean-In : (d : Document) (ds : List Document) → All Clean ds → In d ds → Clean d
Clean-In d [] c i = absurd i
Clean-In d (x ∷ ds) c (inl e) = subst Clean e c.0
Clean-In d (x ∷ ds) c (inr i) = Clean-In d ds c.1 i

-- The document that is changed is in the list afterwards.
pub changed-In :
    (p : Document → Bool) (g : Document → Document) (ds : List Document) (d : Document)
    → first_with p ds ≡ some d
    → In (g d) (change_first p g ds)
changed-In p g [] d e = absurd (none-ne-some e)
changed-In p g (x ∷ ds) d e = elim (Bool-cases (p x)) [
  | inl h ↦ (let found : some x ≡ some d = rw h at e in rw h (inl (ap g (of_some found))))
  | inr h ↦ rw h (inr (changed-In p g ds d (rw h at e)))
]

pub first_last :
    (old : List ℕ) (ds : List Document) (d : Document)
    → Absent old (map key_of ds)
    → d.session_key ≡ old
    → first_with (has_key old) (ds ++ (d ∷ [])) ≡ some d
first_last old [] d h e = rw (e, same_refl old)
first_last old (x ∷ ds) d h e = elim (Bool-cases (same x.session_key old)) [
  | inl p ↦ absurd (h.0 (same→eq x.session_key old p))
  | inr p ↦ rw p (first_last old ds d h.1 e)
]

module _ (mongo : Mongo) (accounts : IsAccountStore mongo) where
  -- In a sound database an account logs in with the session key of its document.
  pub member_accepted :
      (d : Document) (db : mongo.Db)
      → IsSound (mongo.find_all db)
      → In d (mongo.find_all db)
      → token_authenticate mongo (record { uid = d.id; token = d.session_key }) login_ret db
        ≡ record login_ret { message = codes "OK"; uid = d.id; token = d.session_key }
  member_accepted d db s i =
      let (cid, cname, ckey) = Clean-In d (mongo.find_all db) s.clean i in
      let only : filter (has_id (c_string d.id)) (mongo.find_all db) ≡ d ∷ [] =
        ap (λ x. filter (has_id x) (mongo.find_all db)) cid
        ∙ filter_only id_of d (mongo.find_all db) s.ids i in
      let nonempty : c_string d.id ≢ [] =
        λ e. Absent-ne id_of [] (mongo.find_all db) s.identified i (sym cid ∙ e) in
      elim (token_authenticate_exact mongo accounts.store d.id d.session_key db login_ret d only
        nonempty) [
          | inl (key, answer) ↦
              answer
              ∙ ap (λ x. record login_ret { message = codes "OK"; uid = x; token = d.session_key })
                  cid
          | inr (key, answer) ↦ absurd (key (sym ckey))
        ]

  -- What a password login leaves behind, and what its answer is good for.
  pub record Logged (session_key : List ℕ) (ret : LoginRet) (db : mongo.Db) : Type 0 where
    pub sound : IsSound (mongo.find_all db)
    pub accepted :
        token_authenticate mongo (record { uid = ret.uid; token = session_key }) login_ret db
        ≡ record login_ret { message = codes "OK"; uid = ret.uid; token = session_key }

  pub finish :
      (d : Document) (db : mongo.Db) (session_key : List ℕ) (ret : LoginRet)
      → d.session_key ≡ session_key
      → ret.uid ≡ d.id
      → IsSound (mongo.find_all db)
      → In d (mongo.find_all db)
      → Logged session_key ret db
  finish d db session_key ret hk hu s i = record {
    sound = s;
    accepted =
        subst
          (λ k.
            token_authenticate mongo (record { uid = ret.uid; token = k }) login_ret db
            ≡ record login_ret { message = codes "OK"; uid = ret.uid; token = k })
          hk
          (subst
            (λ u.
              token_authenticate mongo (record { uid = u; token = d.session_key }) login_ret db
              ≡ record login_ret { message = codes "OK"; uid = u; token = d.session_key })
            (sym hu) (member_accepted d db s i));
  }
