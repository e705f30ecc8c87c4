-- ===== src/Auth/Revocation/Rotation.antt =====
-- The rotation of refresh tokens: refresh_tokens_uc.py over the denylist.
use s1t_python_backend_templ.Base.{
  ℕ, ◌≤◌, ◌≡◌, refl, ◌∙◌, ap, subst, ◌⊎◌, String, Bool, true, false, not, Option, none, some,
  Result, ok, err, Exec, and_then, ◌==◌,
}
use s1t_python_backend_templ.Shared.Errors.{Error}
use s1t_python_backend_templ.Auth.Domain.{refresh, TokenPair, VerifiedToken, Strings}
use s1t_python_backend_templ.Auth.Interfaces.{IUserRepo}
use s1t_python_backend_templ.Auth.Jwt.{JwtService, jwt_service, verify}
use s1t_python_backend_templ.Auth.Denylist.{
  Valkey, Exists, redis_to_port, denylist_key, add, contains, valkey_denylist,
}
use s1t_python_backend_templ.Auth.UseCases.{
  ceil_seconds, refresh_tokens_uc, refresh_verified, if_subject_active, if_active, if_true, rotate,
}
use s1t_python_backend_templ.Auth.Revocation.{verify-Fixed, Denied, add-Denied}
use s1t_python_backend_templ.Auth.Revocation.Later.{Refused, verified-Refused, Out-later}

module _ {W : Type 0} (valkey : Valkey W) (s : JwtService) (strings : Strings)
    (users : IUserRepo W) where
  open valkey use {time, expires}

  -- The world after the check of the user, when the token is put on the denylist.
  abbrev pub after_check_of : Option ℕ → W → W
  after_check_of none w = w
  after_check_of (some user_id) w = (users.is_active user_id w).1

  abbrev pub after_check : Option String → W → W
  after_check none w = w
  after_check (some subject) w = after_check_of (strings.uuid subject) w

  abbrev pub refresh_at : ℕ → ℕ → ℕ → String × String → String → Exec Error W (Option TokenPair)
  refresh_at = refresh_tokens_uc strings users (jwt_service s) (valkey_denylist valkey)

  rotated_at :
      (v : VerifiedToken) (now issued_at : ℕ) (jtis : String × String) (w : W)
      (x : Result Error (Unit {0}) × W) {pair : TokenPair} {w' : W}
      → add valkey v.jti (ceil_seconds v.expires_at now) w ≡ x
      → and_then x (λ _ w1. (ok ((jwt_service s).issue_pair issued_at jtis v.role v.subject), w1))
        ≡ (ok (some pair), w')
      → now ≤ time w
      → (v.expires_at ≤ now) ⊎ Denied valkey s v w'
  rotated_at v now issued_at jtis w (err exc, w1) a e c = absurd (cc)
  rotated_at v now issued_at jtis w (ok u, w1) {w' = w'} a e c =
      let here : w1 ≡ w' = ap (λ y. y.1) e in
      add-Denied valkey s v now w c (a ∙ ap (λ z. (ok tt, z)) here)

  rotated_active :
      (v : VerifiedToken) (now issued_at : ℕ) (jtis : String × String) (x : Result Error Bool × W)
      {pair : TokenPair} {w' : W}
      → now ≤ time x.1
      → and_then x (λ active.
        if_true strings users
          (jwt_service s)
          (valkey_denylist valkey)
          active
          (rotate strings users (jwt_service s) (valkey_denylist valkey) now issued_at jtis v))
        ≡ (ok (some pair), w')
      → (v.expires_at ≤ now) ⊎ Denied valkey s v w'
  rotated_active v now issued_at jtis (ok true, w1) c e =
      rotated_at v now issued_at jtis w1 (add valkey v.jti (ceil_seconds v.expires_at now) w1) refl
        e c
  rotated_active v now issued_at jtis (ok false, w1) {pair = pair} c e =
      let no_pair : ◌≡◌ {A = Result Error (Option TokenPair)} (ok none) (ok (some pair)) =
        ap (λ y. y.0) e in
      absurd (cc)
  rotated_active v now issued_at jtis (err exc, w1) c e = absurd (cc)

  rotated_of :
      (v : VerifiedToken) (now issued_at : ℕ) (jtis : String × String) (o : Option ℕ) (w : W)
      {pair : TokenPair} {w' : W}
      → now ≤ time (after_check_of o w)
      → if_active strings users
          (jwt_service s)
          (valkey_denylist valkey)
          o
          (rotate strings users (jwt_service s) (valkey_denylist valkey) now issued_at jtis v)
          w
        ≡ (ok (some pair), w')
      → (v.expires_at ≤ now) ⊎ Denied valkey s v w'
  rotated_of v now issued_at jtis none w {pair = pair} c e =
      let no_pair : ◌≡◌ {A = Result Error (Option TokenPair)} (ok none) (ok (some pair)) =
        ap (λ y. y.0) e in
      absurd (cc)
  rotated_of v now issued_at jtis (some user_id) w c e =
      rotated_active v now issued_at jtis (users.is_active user_id w) c e

  rotated :
      (v : VerifiedToken) (now issued_at : ℕ) (jtis : String × String) (o : Option String) (w : W)
      {pair : TokenPair} {w' : W}
      → now ≤ time (after_check o w)
      → if_subject_active strings users
          (jwt_service s)
          (valkey_denylist valkey)
          o
          (rotate strings users (jwt_service s) (valkey_denylist valkey) now issued_at jtis v)
          w
        ≡ (ok (some pair), w')
      → (v.expires_at ≤ now) ⊎ Denied valkey s v w'
  rotated v now issued_at jtis none w c e =
      rotated_at v now issued_at jtis w (add valkey v.jti (ceil_seconds v.expires_at now) w) refl e
        c
  rotated v now issued_at jtis (some subject) w c e =
      rotated_of v now issued_at jtis (strings.uuid subject) w c e

  contained :
      (v : VerifiedToken) (now issued_at : ℕ) (jtis : String × String) (w : W)
      (x : Result Error Bool × W) {pair : TokenPair} {w' : W}
      → x.1 ≡ w
      → now ≤ time (after_check v.subject w)
      → and_then x (λ reused.
        if_true strings users (jwt_service s) (valkey_denylist valkey) (not reused) (
          if_subject_active strings users
            (jwt_service s)
            (valkey_denylist valkey)
            v.subject
            (rotate strings users (jwt_service s) (valkey_denylist valkey) now issued_at jtis v)))
        ≡ (ok (some pair), w')
      → (v.expires_at ≤ now) ⊎ Denied valkey s v w'
  contained v now issued_at jtis w (ok true, w1) {pair = pair} same c e =
      let no_pair : ◌≡◌ {A = Result Error (Option TokenPair)} (ok none) (ok (some pair)) =
        ap (λ y. y.0) e in
      absurd (cc)
  contained v now issued_at jtis w (ok false, w1) same c e =
      rotated v now issued_at jtis v.subject w1 (rw same c) e
  contained v now issued_at jtis w (err exc, w1) same c e = absurd (cc)

  same_world :
      (k : String) (w : W) (x : Result Error ℕ × W)
      → Exists time expires k w x
      → (and_then (redis_to_port x) (λ n s'. (ok (n == 1), s'))).1 ≡ w
  same_world k w (ok n, w1) h = h.0
  same_world k w (err exc, w1) (h, same) = rw h same

  contains-same : (jti : String) (w : W) → (contains valkey jti w).1 ≡ w
  unfolding contains
  contains-same jti w =
      same_world (denylist_key jti) w (valkey.exists (denylist_key jti) w)
        (valkey.exists_law (denylist_key jti) w)

  refreshed_if :
      (v : VerifiedToken) (now issued_at : ℕ) (jtis : String × String) (w : W)
      (o : Option VerifiedToken) {pair : TokenPair} {w' : W}
      → o ≡ some v
      → now ≤ time (after_check v.subject w)
      → refresh_verified strings users
          (jwt_service s)
          (valkey_denylist valkey)
          now
          issued_at
          jtis
          o
          w
        ≡ (ok (some pair), w')
      → (v.expires_at ≤ now) ⊎ Denied valkey s v w'
  refreshed_if v now issued_at jtis w o {pair = pair} {w' = w'} h c e =
      contained v now issued_at jtis w (contains valkey v.jti w) (contains-same v.jti w) c (
        subst
          (λ p.
            refresh_verified strings users (jwt_service s) (valkey_denylist valkey) now issued_at
              jtis p w
            ≡ (ok (some pair), w'))
          h e)

  -- A refresh token is good for one use: once RefreshTokensUC has returned a pair for it, it
  -- refuses the token at any later instant, as long as the entry is not shortened. The clock of
  -- the server is not behind the instant of the first use, nor ahead of that of the second.
  pub refresh_tokens_uc-once :
      (v : VerifiedToken) (verified_at now issued_at : ℕ) (jtis : String × String) (token : String)
      (w : W) (pair : TokenPair) (w' : W) (later now2 issued2 : ℕ) (jtis2 : String × String)
      (w2 : W)
      → verify s verified_at token (some refresh) ≡ some v
      → now ≤ time (after_check v.subject w)
      → refresh_at verified_at now issued_at jtis token w ≡ (ok (some pair), w')
      → now ≤ later
      → time w2 ≤ later
      → expires w' (denylist_key v.jti) ≤ expires w2 (denylist_key v.jti)
      → Refused valkey s strings (refresh_at later now2 issued2 jtis2 token w2).0
  unfolding refresh_tokens_uc
  refresh_tokens_uc-once v verified_at now issued_at jtis token w pair w' later now2 issued2 jtis2
        w2 h c e l c2 k =
      verified-Refused valkey s strings v later w2 (verify s later token (some refresh))
        (λ u reused. if_true strings users (jwt_service s) (valkey_denylist valkey) (not reused) (
          if_subject_active strings users (jwt_service s) (valkey_denylist valkey) u.subject
            (rotate strings users (jwt_service s) (valkey_denylist valkey) now2 issued2 jtis2 u)))
        (refresh_verified strings users (jwt_service s) (valkey_denylist valkey) now2 issued2 jtis2)
        (verify-Fixed s verified_at later v (some refresh) (some refresh) token h)
        (Out-later valkey s strings v now later w' w2
          (refreshed_if v now issued_at jtis w (verify s verified_at token (some refresh)) h c e) l
          k)
        c2 (λ w1. refl) refl (λ u. refl)
