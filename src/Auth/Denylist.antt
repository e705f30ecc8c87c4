-- ===== src/Auth/Denylist.antt =====
-- auth/ports/driven/valkey_denylist.py over a Valkey server, a parameter.
use Prim.Native.String.{◌++◌}
use s1t_python_backend_templ.Base.{
  ℕ, ◌+◌, ◌≡◌, ◌≤◌, String, Bool, true, false, Result, ok, err, Exec, ◌>>=◌, pure, ltb, ◌==◌, ◌is◌,
  if◌then◌else◌,
}
use s1t_python_backend_templ.Shared.Errors.{Error, port_error, redis_error}
use s1t_python_backend_templ.Auth.Jwt.{microseconds}
use s1t_python_backend_templ.Auth.Interfaces.{IDenylist}

-- SET key value EX seconds: it was done at the server's time, or RedisError.
abbrev pub SetEx :
    {W : Type 0}
    → (W → ℕ)
    → (W → String → ℕ)
    → String
    → ℕ
    → W
    → Result Error (Unit {0}) × W
    → Type 0
SetEx time expires key seconds w (ok _, w') =
    (time w ≤ time w')
    × (expires w' ≡ λ k. if k is key then time w' + microseconds seconds else expires w k)
SetEx time expires key seconds w (err e, w') = (e ≡ redis_error) × (time w ≤ time w')

-- EXISTS key: the number of these keys that are there.
abbrev pub Exists :
    {W : Type 0} → (W → ℕ) → (W → String → ℕ) → String → W → Result Error ℕ × W → Type 0
Exists time expires key w (ok n, w') =
    (w' ≡ w) × (n ≡ (if ltb (time w) (expires w key) then 1 else 0))
Exists time expires key w (err e, w') = (e ≡ redis_error) × (w' ≡ w)

-- The server: its clock, and until when it keeps a key (0 if it has none).
pub record Valkey (W : Type 0) : Type 0 where
  pub time : W → ℕ
  pub expires : W → String → ℕ
  pub set_ex : String → ℕ → Exec Error W (Unit {0})
  pub exists : String → Exec Error W ℕ
  pub set_ex_law : (key : String) (n : ℕ) (w : W) → SetEx time expires key n w (set_ex key n w)
  pub exists_law : (key : String) (w : W) → Exists time expires key w (exists key w)

-- `except RedisError as exc: raise PortError(...)`
abbrev pub redis_to_port : {W A : Type 0} → Result Error A × W → Result Error A × W
redis_to_port (err redis_error, w) = (err port_error, w)
redis_to_port (err e, w) = (err e, w)
redis_to_port (ok a, w) = (ok a, w)

-- `_key`
abbrev pub denylist_key : String → String
denylist_key jti = "denylist:" ++ jti

module _ {W : Type 0} (valkey : Valkey W) where
  abbrev pub add_unless : Bool → String → ℕ → Exec Error W (Unit {0})
  add_unless true jti ttl_seconds w = (ok tt, w)
  add_unless false jti ttl_seconds w =
      redis_to_port (valkey.set_ex (denylist_key jti) ttl_seconds w)

  -- ValkeyDenylist.add, where a `ttl_seconds` below 0 is given as 0.
  unfoldable pub add : String → ℕ → Exec Error W (Unit {0})
  add jti ttl_seconds = add_unless (ttl_seconds == 0) jti ttl_seconds

  -- ValkeyDenylist.contains
  unfoldable pub contains : String → Exec Error W Bool
  contains jti = do n ← (λ w. redis_to_port (valkey.exists (denylist_key jti) w)); pure (n == 1)

  abbrev pub valkey_denylist : IDenylist W
  valkey_denylist = record { add = add; contains = contains }
