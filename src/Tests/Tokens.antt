-- ===== src/Tests/Tokens.antt =====
-- A codec that signs the two tokens of one pair, a Valkey server in memory, and one user.
use s1t_python_backend_templ.Base.{
  ℕ, ◌+◌, ◌≡◌, refl, ap, String, Bool, true, false, ◌&&◌, [], ◌∷◌, Option, none, some, ok, ◌==◌,
  ==_iff, ◌is◌, eq_iff, ltb, arith, if◌then◌else◌,
}
use s1t_python_backend_templ.Auth.Domain.{user, TokenType, access, refresh, Strings, UserRecord}
use s1t_python_backend_templ.Auth.Interfaces.{
  ClaimValue, text, datetime, number, anything_else, Claims, IJwtCodec, IUserRepo, IPasswordHasher,
}
use s1t_python_backend_templ.Auth.Jwt.{JwtService, microseconds}
use s1t_python_backend_templ.Auth.Jwt.Issued.{as_decoded}
use s1t_python_backend_templ.Auth.Denylist.{Valkey, SetEx}

abbrev same_value : ClaimValue → ClaimValue → Bool
same_value (text s) (text t) = s is t
same_value (datetime m) (datetime n) = m == n
same_value (number m) (number n) = m == n
same_value anything_else anything_else = true
same_value _ _ = false

abbrev same_claims : Claims → Claims → Bool
same_claims [] [] = true
same_claims ((n, c) ∷ cs) ((m, d) ∷ ds) = (n is m) && (same_value c d && same_claims cs ds)
same_claims _ _ = false

same_value-eq : (c d : ClaimValue) → same_value c d ≡ true → c ≡ d
same_value-eq (text s) (text t) h = ap text ((eq_iff s t).0 h)
same_value-eq (datetime m) (datetime n) h = ap datetime ((==_iff m n).0 h)
same_value-eq (number m) (number n) h = ap number ((==_iff m n).0 h)
same_value-eq anything_else anything_else h = refl
same_value-eq _ _ h = absurd (cc)

and_parts : (a b : Bool) → (a && b) ≡ true → (a ≡ true) × (b ≡ true)
and_parts true b h = (refl, h)
and_parts false b h = absurd (cc)

same_claims-eq : (cs ds : Claims) → same_claims cs ds ≡ true → cs ≡ ds
same_claims-eq [] [] h = refl
same_claims-eq [] (d ∷ ds) h = absurd (cc)
same_claims-eq (c ∷ cs) [] h = absurd (cc)
same_claims-eq ((n, c) ∷ cs) ((m, d) ∷ ds) h =
    let (k, r) = and_parts (n is m) (same_value c d && same_claims cs ds) h in
    let (v, t) = and_parts (same_value c d) (same_claims cs ds) r in
    let kept : n ≡ m = (eq_iff n m).0 k in
    let value : c ≡ d = same_value-eq c d v in let rest : cs ≡ ds = same_claims-eq cs ds t in cc

abbrev issued_claims : TokenType → String → ℕ → Claims
issued_claims access jti ttl =
    ("iss", text "base")
    ∷ ("sub", text "1")
    ∷ ("role", text "user")
    ∷ ("type", text "access")
    ∷ ("jti", text jti)
    ∷ ("iat", datetime 1500000)
    ∷ ("exp", datetime (1500000 + microseconds ttl))
    ∷ []
issued_claims refresh jti ttl =
    ("iss", text "base")
    ∷ ("sub", text "1")
    ∷ ("role", text "user")
    ∷ ("type", text "refresh")
    ∷ ("jti", text jti)
    ∷ ("iat", datetime 1500000)
    ∷ ("exp", datetime (1500000 + microseconds ttl))
    ∷ []

abbrev encode_by : Bool → Bool → Option String
encode_by true b = some "a.b.c"
encode_by false true = some "d.e.f"
encode_by false false = none

abbrev access_claims : Claims
access_claims = issued_claims access "jti-a" 2

abbrev refresh_claims : Claims
refresh_claims = issued_claims refresh "jti-r" 9

abbrev decode_token : String → Option Claims
decode_token token =
    if token is "a.b.c"
    then some (as_decoded access_claims)
    else if token is "d.e.f"
    then some (as_decoded refresh_claims)
    else none

abbrev pub codec : IJwtCodec
codec = record {
  encode = λ cs. encode_by (same_claims cs access_claims) (same_claims cs refresh_claims);
  decode = decode_token;
}

-- A decoded claims list stands for the token that it came from.
encode_by-law :
    (a b : Bool) (cs : Claims) (token : String)
    → same_claims cs access_claims ≡ a
    → same_claims cs refresh_claims ≡ b
    → encode_by a b ≡ some token
    → decode_token token ≡ some (as_decoded cs)
encode_by-law true b cs token e f h =
    let this : "a.b.c" ≡ token = ap (λ o. elim o [ none ↦ "" | some t ↦ t ]) h in
    rw (← this, same_claims-eq cs access_claims e) refl
encode_by-law false true cs token e f h =
    let this : "d.e.f" ≡ token = ap (λ o. elim o [ none ↦ "" | some t ↦ t ]) h in
    rw (← this, same_claims-eq cs refresh_claims f) refl
encode_by-law false false cs token e f h = absurd (cc)

pub codec_law :
    (cs : Claims) (token : String)
    → codec.encode cs ≡ some token
    → codec.decode token ≡ some (as_decoded cs)
codec_law cs token h =
    encode_by-law (same_claims cs access_claims) (same_claims cs refresh_claims) cs token refl refl
      h

abbrev pub jwt : JwtService
jwt = record { codec = codec; issuer = "base"; access_ttl = 2; refresh_ttl = 9 }

pub record Memory : Type 0 where
  pub clock : ℕ
  pub keys : String → ℕ

pub set_key_law :
    (key : String) (n : ℕ) (m : Memory)
    → SetEx
        (λ m. m.clock)
        (λ m. m.keys)
        key
        n
        m
        (ok tt, record m { keys = λ k. if k is key then m.clock + microseconds n else m.keys k })
set_key_law key n m = (omega arith, refl)

abbrev pub valkey : Valkey Memory
valkey = record {
  time = λ m. m.clock;
  expires = λ m. m.keys;
  set_ex = λ key n m.
      (ok tt, record m { keys = λ k. if k is key then m.clock + microseconds n else m.keys k });
  exists = λ key m. (ok (if ltb m.clock (m.keys key) then 1 else 0), m);
  set_ex_law = set_key_law;
  exists_law = λ key m. (refl, refl);
}

abbrev pub strings : Strings
strings = record {
  sha256_hexdigest = λ s. s;
  strip = λ s. s;
  lower = λ s. s;
  startswith = λ s p. s is p;
  count_dots = λ s. if s is "a.b.c" then 2 else if s is "d.e.f" then 2 else 0;
  len = λ s. 5;
  hex8 = λ n. "";
  first8 = λ s. s;
  uuid_text = λ n. "1";
  uuid = λ s. if s is "1" then some 1 else none;
}

abbrev pub account : UserRecord
account = record { id = 1; email = "a@b.c"; role = user; created_at = 0 }

abbrev pub users : IUserRepo Memory
users = record {
  register = λ e p r m. (ok account, m);
  find_credentials_by_email = λ e m. (ok (some (account, "secret")), m);
  is_active = λ i m. (ok true, m);
  list_page = λ a n m. (ok [], m);
  soft_delete = λ i m. (ok false, m);
}

abbrev pub at_start : Memory
at_start = record { clock = 1600000; keys = λ k. 0 }

abbrev pub hasher : IPasswordHasher
hasher = record { hash = λ p. p; verify = λ p h. p is h; dummy_hash = "" }
