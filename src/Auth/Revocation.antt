-- ===== src/Auth/Revocation.antt =====
-- Revoked tokens stay revoked: refresh_tokens_uc.py, revoke_token_uc.py and jwt_token_resolver.py
-- over the denylist.
pub mod Later
pub mod Rotation
use Prim.Native.Nat.{◌/◌}
use s1t_python_backend_templ.Base.{
  ℕ, ◌+◌, ◌-◌, ◌*◌, ◌≤◌, ◌<◌, ◌≡◌, refl, ◌∙◌, ap, sym, subst, ◌⊎◌, inl, inr, String, Bool, true,
  false, not, Option, none, some, Result, ok, err, Exec, and_then, ◌>>=◌, ltb, leb, ◌==◌, ◌is◌,
  arith, if◌then◌else◌, Bool-cases, Option-cases, eq_refl,
}
use s1t_python_backend_templ.Shared.Errors.{Error, port_error, redis_error}
use s1t_python_backend_templ.Auth.Domain.{
  Principal, TokenType, access, refresh, TokenPair, VerifiedToken, Strings,
}
use s1t_python_backend_templ.Auth.Interfaces.{Claims, IJwtService}
use s1t_python_backend_templ.Auth.Jwt.{
  JwtService, jwt_service, verify, verify_claims, spelled, unexpired, bind_option, when, is_text,
  is_type, get_claim, microseconds,
}
use s1t_python_backend_templ.Auth.Denylist.{
  Valkey, SetEx, Exists, redis_to_port, denylist_key, add_unless, add, contains, valkey_denylist,
}
use s1t_python_backend_templ.Auth.UseCases.{ceil_seconds, revoke_verified, revoke_token_uc}

-- The ceiling covers what is left of a token's life.
ceil_seconds-covers : (exp now : ℕ) → exp ≤ now + microseconds (ceil_seconds exp now)
unfolding ceil_seconds
ceil_seconds-covers exp now = omega arith

module _ (s : JwtService) where
  -- Two verifications of one text agree on the token, whatever types they expect, but that it may
  -- have expired.
  abbrev pub Fixed : ℕ → VerifiedToken → Option VerifiedToken → Type 0
  Fixed now v none = Unit {0}
  Fixed now v (some v') = (v' ≡ v) × (now < v.expires_at)

  none_if : (b : Bool) (u v : VerifiedToken) → (if b then none else some u) ≡ some v → u ≡ v
  none_if true u v h = absurd (cc)
  none_if false u v h = cc

  checked-Fixed :
      (b : Bool) (now : ℕ) (v u : VerifiedToken)
      → leb u.expires_at now ≡ b
      → u ≡ v
      → Fixed now v (if b then none else some u)
  checked-Fixed true now v u h e = tt
  checked-Fixed false now v u h e =
      let later : now < u.expires_at = ground arith in (e, subst (λ t. now < t.expires_at) e later)

  unexpired-Fixed :
      (now now' : ℕ) (v u : VerifiedToken)
      → unexpired now u ≡ some v
      → Fixed now' v (unexpired now' u)
  unexpired-Fixed now now' v u h =
      checked-Fixed (leb u.expires_at now') now' v u refl (none_if (leb u.expires_at now) u v h)

  verify_claims-Fixed :
      (now now' : ℕ) (v : VerifiedToken) (i i' t t' : Bool) (o : Option VerifiedToken)
      → when i (when t (bind_option o (unexpired now))) ≡ some v
      → Fixed now' v (when i' (when t' (bind_option o (unexpired now'))))
  verify_claims-Fixed now now' v i false t t' o h = tt
  verify_claims-Fixed now now' v i true t false o h = tt
  verify_claims-Fixed now now' v i true t true none h = tt
  verify_claims-Fixed now now' v false true t true (some u) h = absurd (cc)
  verify_claims-Fixed now now' v true true false true (some u) h = absurd (cc)
  verify_claims-Fixed now now' v true true true true (some u) h = unexpired-Fixed now now' v u h

  decoded-Fixed :
      (now now' : ℕ) (v : VerifiedToken) (k k' : Option TokenType) (o : Option Claims)
      → bind_option o (verify_claims s now k) ≡ some v
      → Fixed now' v (bind_option o (verify_claims s now' k'))
  decoded-Fixed now now' v k k' none h = tt
  decoded-Fixed now now' v k k' (some cs) h =
      verify_claims-Fixed now now' v (is_text (get_claim "iss" cs) s.issuer)
        (is_text (get_claim "iss" cs) s.issuer) (is_type (get_claim "type" cs) k)
        (is_type (get_claim "type" cs) k') (spelled cs) h

  pub verify-Fixed :
      (now now' : ℕ) (v : VerifiedToken) (k k' : Option TokenType) (token : String)
      → verify s now token k ≡ some v
      → Fixed now' v (verify s now' token k')
  unfolding verify
  verify-Fixed now now' v k k' token h = decoded-Fixed now now' v k k' (s.codec.decode token) h

module _ {W : Type 0} (valkey : Valkey W) (s : JwtService) where
  open valkey use {time, expires}

  -- The entry of a token keeps it off the list of usable ones until it has expired.
  abbrev pub Denied : VerifiedToken → W → Type 0
  Denied v w = v.expires_at ≤ expires w (denylist_key v.jti)

  SetEx-Denied :
      (v : VerifiedToken) (at : ℕ) (w : W) (x : Result Error (Unit {0}) × W) {w' : W}
      → at ≤ time w
      → SetEx time expires (denylist_key v.jti) (ceil_seconds v.expires_at at) w x
      → redis_to_port x ≡ (ok tt, w')
      → Denied v w'
  SetEx-Denied v at w (ok u, w1) {w' = w'} c (t, h) e =
      let here : w1 ≡ w' = ap (λ y. y.1) e in
      let until : expires w1 (denylist_key v.jti)
          ≡ time w1 + microseconds (ceil_seconds v.expires_at at) =
        ap (λ f. f (denylist_key v.jti)) h
        ∙ ap
            (λ b.
              if b
              then time w1 + microseconds (ceil_seconds v.expires_at at)
              else expires w (denylist_key v.jti))
            (eq_refl (denylist_key v.jti)) in
      let covered : v.expires_at ≤ expires w1 (denylist_key v.jti) =
        omega (arith, ceil_seconds-covers v.expires_at at) in
      subst (λ z. v.expires_at ≤ expires z (denylist_key v.jti)) here covered
  SetEx-Denied v at w (err exc, w1) c (h, t) e = absurd (cc)

  add_unless-Denied :
      (b : Bool) (v : VerifiedToken) (at : ℕ) (w : W) {w' : W}
      → at ≤ time w
      → (ceil_seconds v.expires_at at == 0) ≡ b
      → add_unless valkey b v.jti (ceil_seconds v.expires_at at) w ≡ (ok tt, w')
      → (v.expires_at ≤ at) ⊎ Denied v w'
  add_unless-Denied true v at w c z e =
      let over : v.expires_at ≤ at = ground (arith, ceil_seconds-covers v.expires_at at) in inl over
  add_unless-Denied false v at w c z e = inr (
      SetEx-Denied v at w (valkey.set_ex (denylist_key v.jti) (ceil_seconds v.expires_at at) w) c
        (valkey.set_ex_law (denylist_key v.jti) (ceil_seconds v.expires_at at) w) e)

  -- Adding it for the ceiling of its life denies it, unless it has expired meanwhile.
  pub add-Denied :
      (v : VerifiedToken) (at : ℕ) (w : W) {w' : W}
      → at ≤ time w
      → add valkey v.jti (ceil_seconds v.expires_at at) w ≡ (ok tt, w')
      → (v.expires_at ≤ at) ⊎ Denied v w'
  unfolding add
  add-Denied v at w c e = add_unless-Denied (ceil_seconds v.expires_at at == 0) v at w c refl e

  Exists-Denied :
      (v : VerifiedToken) (w : W) (x : Result Error ℕ × W)
      → time w < v.expires_at
      → Denied v w
      → Exists time expires (denylist_key v.jti) w x
      → ((and_then (redis_to_port x) (λ n s'. (ok (n == 1), s'))).0 ≡ ok true)
        ⊎ ((and_then (redis_to_port x) (λ n s'. (ok (n == 1), s'))).0 ≡ err port_error)
  Exists-Denied v w (ok n, w1) t d (same, h) =
      let is_there : n ≡ 1 = ground arith in inl (rw is_there refl)
  Exists-Denied v w (err exc, w1) t d (h, same) = inr (rw h refl)

  pub contains-Denied :
      (v : VerifiedToken) (w : W)
      → time w < v.expires_at
      → Denied v w
      → ((contains valkey v.jti w).0 ≡ ok true) ⊎ ((contains valkey v.jti w).0 ≡ err port_error)
  unfolding contains
  contains-Denied v w t d =
      Exists-Denied v w (valkey.exists (denylist_key v.jti) w) t d
        (valkey.exists_law (denylist_key v.jti) w)
