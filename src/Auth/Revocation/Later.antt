-- ===== src/Auth/Revocation/Later.antt =====
-- What a revoked or rotated token can still do.
use s1t_python_backend_templ.Base.{
  ℕ, ◌≤◌, ◌≡◌, refl, subst, ◌⊎◌, inl, inr, String, Bool, true, false, Option, none, some, Result,
  ok, err, Exec, and_then, ◌>>=◌, ◌==◌, arith,
}
use s1t_python_backend_templ.Shared.Errors.{Error, port_error}
use s1t_python_backend_templ.Auth.Domain.{Principal, access, VerifiedToken, Strings}
use s1t_python_backend_templ.Auth.Jwt.{JwtService, jwt_service, verify}
use s1t_python_backend_templ.Auth.Denylist.{Valkey, denylist_key, contains, valkey_denylist}
use s1t_python_backend_templ.Auth.UseCases.{revoke_verified, revoke_token_uc}
use s1t_python_backend_templ.Auth.Resolvers.{unless_denied, resolve_jwt, resolve_verified, shaped}
use s1t_python_backend_templ.Auth.Revocation.{
  Fixed, verify-Fixed, Denied, add-Denied, contains-Denied,
}

module _ {W : Type 0} (valkey : Valkey W) (s : JwtService) (strings : Strings) where
  open valkey use {time, expires}

  -- Nothing, or PortError.
  abbrev pub Refused : {A : Type 0} → Result Error (Option A) → Type 0
  Refused r = (r ≡ ok none) ⊎ (r ≡ err port_error)

  -- The token has expired by then, or its entry is still there.
  abbrev pub Out : VerifiedToken → ℕ → W → Type 0
  Out v now w = (v.expires_at ≤ now) ⊎ Denied valkey s v w

  pub denied-Refused :
      {A : Type 0} (x : Result Error Bool × W) (f : Bool → Exec Error W (Option A))
      → ((w : W) → (f true w).0 ≡ ok none)
      → (x.0 ≡ ok true) ⊎ (x.0 ≡ err port_error)
      → Refused (and_then x f).0
  denied-Refused (ok true, w) f n (inl h) = inl (n w)
  denied-Refused (ok false, w) f n (inl h) = absurd (cc)
  denied-Refused (err e, w) f n (inl h) = absurd (cc)
  denied-Refused (ok d, w) f n (inr h) = absurd (cc)
  denied-Refused (err e, w) f n (inr h) = inr (cc)

  pub verified-Refused :
      {A : Type 0} (v : VerifiedToken) (now : ℕ) (w : W) (o : Option VerifiedToken)
      (f : VerifiedToken → Bool → Exec Error W (Option A))
      (g : Option VerifiedToken → Exec Error W (Option A))
      → Fixed s now v o
      → Out v now w
      → time w ≤ now
      → ((w : W) → (f v true w).0 ≡ ok none)
      → (g none w).0 ≡ ok none
      → ((u : VerifiedToken) → g (some u) w ≡ (contains valkey u.jti >>= f u) w)
      → Refused (g o w).0
  verified-Refused v now w none f g h out c n z k = inl z
  verified-Refused v now w (some u) f g (h, live) (inl over) c n z k = absurd (omega arith)
  verified-Refused v now w (some u) f g (h, live) (inr d) c n z k =
      rw (h, k v)
        (denied-Refused (contains valkey v.jti w) (f v) n
          (contains-Denied valkey s v w (omega arith) d))

  pub Out-later :
      (v : VerifiedToken) (now later : ℕ) (w w2 : W)
      → (v.expires_at ≤ now) ⊎ Denied valkey s v w
      → now ≤ later
      → expires w (denylist_key v.jti) ≤ expires w2 (denylist_key v.jti)
      → Out v later w2
  Out-later v now later w w2 (inl over) l k = inl (omega arith)
  Out-later v now later w w2 (inr d) l k = inr (omega arith)

  revoked_if :
      (v : VerifiedToken) (now : ℕ) (w : W) (o : Option VerifiedToken) {w' : W}
      → o ≡ some v
      → now ≤ time w
      → revoke_verified (valkey_denylist valkey) now o w ≡ (ok tt, w')
      → (v.expires_at ≤ now) ⊎ Denied valkey s v w'
  revoked_if v now w o {w' = w'} h c e =
      add-Denied valkey s v now w c
        (subst (λ p. revoke_verified (valkey_denylist valkey) now p w ≡ (ok tt, w')) h e)

  revoked :
      (v : VerifiedToken) (verified_at now : ℕ) (token : String) (w : W) {w' : W}
      → verify s verified_at token none ≡ some v
      → now ≤ time w
      → revoke_token_uc (jwt_service s) (valkey_denylist valkey) verified_at now token w
        ≡ (ok tt, w')
      → (v.expires_at ≤ now) ⊎ Denied valkey s v w'
  unfolding revoke_token_uc
  revoked v verified_at now token w h c e =
      revoked_if v now w (verify s verified_at token none) h c e

  resolve-Refused :
      (v : VerifiedToken) (now : ℕ) (token : String) (w : W) (o : Option VerifiedToken)
      → Fixed s now v o
      → Out v now w
      → time w ≤ now
      → Refused (resolve_verified strings (valkey_denylist valkey) o w).0
  resolve-Refused v now token w o h out c =
      verified-Refused v now w o (λ u d w1. (ok (unless_denied d u), w1))
        (resolve_verified strings (valkey_denylist valkey)) h out c (λ w1. refl) refl (λ u. refl)

  shaped-Refused :
      (b : Bool) (w : W) (m : Exec Error W (Option Principal))
      → Refused (m w).0
      → Refused (shaped strings b m w).0
  shaped-Refused true w m h = h
  shaped-Refused false w m h = inl refl

  -- Once RevokeTokenUC has returned for a token that verified, the token resolves to no principal
  -- at any later instant, as long as its entry is not shortened. The clock of the server is not
  -- behind the instant that the use case read, nor ahead of the instant of the check.
  pub revoke_token_uc-Refused :
      (v : VerifiedToken) (verified_at now later : ℕ) (token : String) (w w' w2 : W)
      → verify s verified_at token none ≡ some v
      → now ≤ time w
      → revoke_token_uc (jwt_service s) (valkey_denylist valkey) verified_at now token w
        ≡ (ok tt, w')
      → now ≤ later
      → time w2 ≤ later
      → expires w' (denylist_key v.jti) ≤ expires w2 (denylist_key v.jti)
      → Refused (resolve_jwt strings (jwt_service s) (valkey_denylist valkey) later token w2).0
  unfolding resolve_jwt
  revoke_token_uc-Refused v verified_at now later token w w' w2 h c e l c2 k =
      shaped-Refused (strings.count_dots token == 2) w2
        (resolve_verified strings (valkey_denylist valkey) (verify s later token (some access)))
        (resolve-Refused v later token w2 (verify s later token (some access))
          (verify-Fixed s verified_at later v none (some access) token h)
          (Out-later v now later w' w2 (revoked v verified_at now token w h c e) l k) c2)
