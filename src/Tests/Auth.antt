-- ===== src/Tests/Auth.antt =====
-- The theorems on users and tokens, at a library of tokens that knows the claims of one user.
use Prim.Native.String.{len, slice}
use router_x.Base.Float.{Micros, micros_float}
use router_x.Base.{
  ℕ, ◌==◌, String, Bool, true, false, ◌&&◌, Option, none, some, [], ◌∷◌, ok, err, ◌≡◌, refl, arith,
  str_eq, eq_iff, Bool-cases, if◌then◌else◌, inl, inr,
}
use router_x.Store.Types.{AdminUser}
use router_x.Store.Db.{
  Tables, healthy, query_row, find_row, exec, exec_checked, update_rows, upsert_row,
}
use router_x.Store.Tenants.{update_tenant_balance, change_tenant}
use router_x.Store.Users.{get_admin_by_username, create_tenant, create_tenant_user}
use router_x.Auth.Tokens.{
  Claims, Jwt, new_admin_token, new_tenant_token, admin_auth, tenant_user_auth,
}
use router_x.Auth.Tokens.Roles.{ReadsBack, Accepts}
use router_x.Auth.Login.{Credentials, Bcrypt, auth_login, grant, token_and_role, token_ttl}
use router_x.Auth.Login.Admins.{auth_login-admins}
use router_x.Auth.Register.{Registration, Fresh, auth_register}
use router_x.Auth.Register.LogsIn.{Matches, auth_login-auth_register}
use router_x.Tests.Chat.{tables}

abbrev same_time : Option ℕ → Option ℕ → Bool
same_time none none = true
same_time (some s) (some t) = s == t
same_time _ _ = false

abbrev same_claims : Claims → Claims → Bool
same_claims c d =
    str_eq c.username d.username
    && (str_eq c.role d.role
        && (str_eq c.tenant_id d.tenant_id
            && (same_time c.expires_at d.expires_at && same_time c.issued_at d.issued_at)))

same_time_eq : (s t : Option ℕ) → same_time s t ≡ true → s ≡ t
same_time_eq none none h = refl
same_time_eq (some s) (some t) h = ground arith
same_time_eq none (some t) h = cc
same_time_eq (some s) none h = cc

same_claims_eq : (c d : Claims) → same_claims c d ≡ true → c ≡ d
same_claims_eq c d h =
    let name : c.username ≡ d.username = ground (arith, eq_iff c.username d.username) in
    let role : c.role ≡ d.role = ground (arith, eq_iff c.role d.role) in
    let tenant : c.tenant_id ≡ d.tenant_id = ground (arith, eq_iff c.tenant_id d.tenant_id) in
    let end : c.expires_at ≡ d.expires_at =
      ground (arith, same_time_eq c.expires_at d.expires_at) in
    let start : c.issued_at ≡ d.issued_at = ground (arith, same_time_eq c.issued_at d.issued_at) in
    λ i. record {
      username = name i;
      role = role i;
      tenant_id = tenant i;
      expires_at = end i;
      issued_at = start i;
    }

-- Signs nothing but `known`.
abbrev pub jwt_of : Claims → Jwt
jwt_of known = record {
  sign = λ secret c. if same_claims c known then ok "token" else err "unknown claims";
  parse = λ now secret t. if str_eq t "token" then some known else none;
  numeric_date = λ t. t;
  bearer = λ h. if str_eq (slice h 0 7) "Bearer " then some (slice h 7 (len h)) else none;
}

pub signed_lem :
    (known : Claims) (secret : String) (c : Claims) (t : String)
    → (jwt_of known).sign secret c ≡ ok t
    → (c ≡ known) × (t ≡ "token")
signed_lem known secret c t h = elim (Bool-cases (same_claims c known)) [
  | inl e ↦ (same_claims_eq c known e, cc (rw e at h))
  | inr e ↦ cc (rw e at h)
]

abbrev pub jwt_of-ReadsBack : (known : Claims) → ReadsBack (jwt_of known)
jwt_of-ReadsBack known = record {
  reads_back = λ secret c t now h.
      let (same, token) = signed_lem known secret c t h in rw (same, token) (inr refl);
}

abbrev jwt_of-Accepts : (known : Claims) → Accepts (jwt_of known)
jwt_of-Accepts known = record {
  accepts = λ secret c t now end h e early.
      let (same, token) = signed_lem known secret c t h in rw (same, token) refl;
}

abbrev bcrypt : Bcrypt
bcrypt = record { compare = str_eq; generate = λ salt password. ok password }

bcrypt-Matches : Matches bcrypt
bcrypt-Matches = record { matches = λ salt password hash h. (eq_iff hash password).1 (cc h) }

abbrev root : AdminUser
root = record { id = "1"; username = "root"; password_hash = "secret" }

abbrev with_root : Tables Micros
with_root = record tables { admin_users = root ∷ [] }

abbrev pub root_claims : Claims
root_claims = record {
  username = "root";
  role = "admin";
  tenant_id = "";
  expires_at = some token_ttl;
  issued_at = some 0;
}

abbrev ada : Registration
ada = record { username = "ada"; password = "engine"; tenant = "" }

abbrev fresh : Fresh
fresh = record { tenant_id = "t1"; user_id = "u1"; salt = ""; now = 0 }

abbrev pub ada_claims : Claims
ada_claims = record {
  username = "ada";
  role = "tenant";
  tenant_id = "t1";
  expires_at = some token_ttl;
  issued_at = some 0;
}

abbrev root_login : Credentials
root_login = record { username = "root"; password = "secret" }

-- The administrator logs in, and the token opens the administrator's routes.
auth_login-admins_example :
    (u : AdminUser) × ((get_admin_by_username "root" (healthy with_root)).0 ≡ ok u)
    × (bcrypt.compare u.password_hash "secret" ≡ true)
unfolding auth_login get_admin_by_username query_row find_row new_admin_token admin_auth
auth_login-admins_example =
    auth_login-admins (jwt_of root_claims) bcrypt "key" (jwt_of-ReadsBack root_claims) 0 5
      root_login (healthy with_root) "token" "admin" "Bearer token" refl refl refl

-- A user registers, logs in and comes to the user's routes.
auth_login-auth_register_example :
    let after = (auth_register (λ (a : Micros). a) bcrypt fresh (some ada) (healthy tables)).1 in
    ((auth_login
        (jwt_of ada_claims)
        bcrypt
        "key"
        0
        (some (record { username = "ada"; password = "engine" }))
        after).0
      ≡ grant (token_and_role "token" "tenant"))
    × ((tenant_user_auth (jwt_of ada_claims) "key" 5 "Bearer token" (healthy tables)).0
        ≡ ok (record { id = ""; tenant_id = "t1"; username = "ada"; password_hash = "" }))
unfolding auth_register create_tenant exec create_tenant_user exec_checked update_tenant_balance
    change_tenant update_rows upsert_row find_row new_tenant_token
auth_login-auth_register_example =
    auth_login-auth_register (λ (a : Micros). a) bcrypt (jwt_of ada_claims) "key" bcrypt-Matches
      (jwt_of-Accepts ada_claims) fresh ada tables 0 5 "Bearer token" "token" (healthy tables) refl
      refl refl refl (omega arith)
