-- ===== src/Auth/UseCases.antt =====
-- auth/app/use_cases. A use case is given the instants that it reads from the clock, in order.
use Prim.Native.Nat.{◌/◌}
use s1t_python_backend_templ.Base.{
  ℕ, ◌+◌, ◌-◌, String, Bool, true, false, not, List, Option, none, some, Exec, ◌>>=◌, ◌>>◌, pure,
  raise, raise_if,
}
use s1t_python_backend_templ.Shared.Errors.{Error, jwt_disabled, api_key_not_found, user_not_found}
use s1t_python_backend_templ.Auth.Domain.{
  Role, user, Principal, refresh, TokenPair, VerifiedToken, ApiKeyRecord, UserRecord, Strings,
  generate_api_key, normalize_email,
}
use s1t_python_backend_templ.Auth.Interfaces.{
  IJwtService, IPasswordHasher, IDenylist, IUserRepo, IApiKeyRepo, ITokenResolver,
}

-- `math.ceil((expires_at - now).total_seconds())`; 0 where that is negative.
unfoldable pub ceil_seconds : ℕ → ℕ → ℕ
ceil_seconds expires_at now = (expires_at - now + 999999) / 1000000

abbrev pub or_jwt_disabled : {W : Type 0} → Option TokenPair → Exec Error W TokenPair
or_jwt_disabled none = raise jwt_disabled
or_jwt_disabled (some pair) = pure pair

module _ {W : Type 0} where
  -- AuthenticateUC.__call__
  unfoldable pub authenticate_uc : ITokenResolver W → ℕ → String → Exec Error W (Option Principal)
  authenticate_uc resolver now token = resolver.resolve now token

  -- IssueTokensUC.__call__
  unfoldable pub issue_tokens_uc : IJwtService → ℕ → String × String → Role → Exec Error W TokenPair
  issue_tokens_uc jwt now jtis role = or_jwt_disabled (jwt.issue_pair now jtis role none)

  abbrev pub revoke_verified : IDenylist W → ℕ → Option VerifiedToken → Exec Error W (Unit {0})
  revoke_verified denylist now none = pure tt
  revoke_verified denylist now (some v) = denylist.add v.jti (ceil_seconds v.expires_at now)

  -- RevokeTokenUC.__call__
  unfoldable pub revoke_token_uc :
      IJwtService → IDenylist W → ℕ → ℕ → String → Exec Error W (Unit {0})
  unfolding ceil_seconds
  revoke_token_uc jwt denylist verified_at now token =
      revoke_verified denylist now (jwt.verify verified_at token none)

  module _ (strings : Strings) (users : IUserRepo W) where
    module _ (jwt : IJwtService) (denylist : IDenylist W) where
      -- From `ttl = ...` on.
      abbrev pub rotate : ℕ → ℕ → String × String → VerifiedToken → Exec Error W (Option TokenPair)
      rotate now issued_at jtis v = do
        denylist.add v.jti (ceil_seconds v.expires_at now)
        pure (jwt.issue_pair issued_at jtis v.role v.subject)

      abbrev pub if_true : Bool → Exec Error W (Option TokenPair) → Exec Error W (Option TokenPair)
      if_true true m = m
      if_true false m = pure none

      abbrev pub if_active :
          Option ℕ → Exec Error W (Option TokenPair) → Exec Error W (Option TokenPair)
      if_active none m = pure none
      if_active (some user_id) m = do active ← users.is_active user_id; if_true active m

      -- The block under `if verified.subject is not None`, and what follows it.
      abbrev pub if_subject_active :
          Option String → Exec Error W (Option TokenPair) → Exec Error W (Option TokenPair)
      if_subject_active none m = m
      if_subject_active (some subject) m = if_active (strings.uuid subject) m

      abbrev pub refresh_verified :
          ℕ → ℕ → String × String → Option VerifiedToken → Exec Error W (Option TokenPair)
      refresh_verified now issued_at jtis none = pure none
      refresh_verified now issued_at jtis (some v) = do
        reused ← denylist.contains v.jti
        if_true (not reused) (if_subject_active v.subject (rotate now issued_at jtis v))

      -- RefreshTokensUC.__call__
      unfoldable pub refresh_tokens_uc :
          ℕ → ℕ → ℕ → String × String → String → Exec Error W (Option TokenPair)
      unfolding ceil_seconds
      refresh_tokens_uc verified_at now issued_at jtis token =
          refresh_verified now issued_at jtis (jwt.verify verified_at token (some refresh))

    -- DeactivateUserUC.__call__
    unfoldable pub deactivate_user_uc : ℕ → Exec Error W (Unit {0})
    deactivate_user_uc user_id = do
      deleted ← users.soft_delete user_id
      raise_if (not deleted) (user_not_found user_id)

    -- ListUsersUC.__call__
    unfoldable pub list_users_uc : Option (ℕ × ℕ) → ℕ → Exec Error W (List UserRecord)
    list_users_uc after limit = users.list_page after limit

    module _ (hasher : IPasswordHasher) where
      -- RegisterUserUC.__call__
      unfoldable pub register_user_uc : String → String → Exec Error W UserRecord
      unfolding normalize_email
      register_user_uc email password =
          users.register (normalize_email strings email) (hasher.hash password) user

      -- From `if not self._hasher.verify(...)` on.
      abbrev pub login_verified :
          IJwtService → ℕ → String × String → UserRecord → Bool → Exec Error W (Option TokenPair)
      login_verified jwt now jtis found false = pure none
      login_verified jwt now jtis found true =
          or_jwt_disabled (jwt.issue_pair now jtis found.role (some (strings.uuid_text found.id)))
          >>= λ pair. pure (some pair)

      -- From `found` on; the check against the dummy hash has no result that is used.
      abbrev pub login_found :
          IJwtService
          → ℕ
          → String × String
          → String
          → Option (UserRecord × String)
          → Exec Error W (Option TokenPair)
      login_found jwt now jtis password none = pure none
      login_found jwt now jtis password (some (found, password_hash)) =
          login_verified jwt now jtis found (hasher.verify password password_hash)

      -- LoginUserUC.__call__
      unfoldable pub login_user_uc :
          IJwtService → ℕ → String × String → String → String → Exec Error W (Option TokenPair)
      unfolding normalize_email
      login_user_uc jwt now jtis email password = do
        found ← users.find_credentials_by_email (normalize_email strings email)
        login_found jwt now jtis password found

  module _ (strings : Strings) (repo : IApiKeyRepo W) where
    -- GenerateApiKeyUC.__call__, for the random text that it draws.
    unfoldable pub generate_api_key_uc : String → String → Role → Exec Error W (ℕ × String)
    unfolding generate_api_key
    generate_api_key_uc drawn name role = do
      let generated = generate_api_key strings drawn
      api_key_id ← repo.create generated.key_hash name role
      pure (api_key_id, generated.plaintext)

    -- ListApiKeysUC.__call__
    unfoldable pub list_api_keys_uc : Exec Error W (List ApiKeyRecord)
    list_api_keys_uc = repo.list_active

    -- RevokeApiKeyUC.__call__
    unfoldable pub revoke_api_key_uc : ℕ → Exec Error W (Unit {0})
    revoke_api_key_uc api_key_id = do
      deleted ← repo.soft_delete api_key_id
      raise_if (not deleted) (api_key_not_found api_key_id)
