-- ===== src/Shared/Texts.antt =====
-- The texts of identifiers and instants that Python's standard library writes and reads, and the
-- encoders of msgspec and hashlib: parameters, with their documented round trips.
use s1t_python_backend_templ.Base.{ℕ, String, ◌≡◌, Option, none, some, ◌==◌, if◌then◌else◌}
use Prim.Native.Char.{Char, code}
use s1t_python_backend_templ.Shared.Json.{Json}

abbrev pub cons_first : Char → Option (String × String) → Option (String × String)
cons_first c none = none
cons_first c (some (a, b)) = some (String.◌∷◌ c a, b)

-- text.split("|", 1), where there is a '|'
unfoldable pub split_bar : String → Option (String × String)
split_bar String.[] = none
split_bar (String.◌∷◌ c s) =
    let rest = cons_first c (split_bar s) in if code c == b'|' then some ("", s) else rest

pub record Texts : Type 0 where
  -- str(uuid) and UUID(text); `none` is a ValueError.
  pub uuid_text : ℕ → String
  pub uuid : String → Option ℕ
  pub uuid_law : (i : ℕ) → uuid (uuid_text i) ≡ some i
  -- dt.isoformat() and datetime.fromisoformat(text)
  pub isoformat : ℕ → String
  pub fromisoformat : String → Option ℕ
  pub iso_law : (t : ℕ) → fromisoformat (isoformat t) ≡ some t
  -- The texts use no '|'.
  pub iso_bar : (t : ℕ) → split_bar (isoformat t) ≡ none
  -- base64.urlsafe_b64encode and urlsafe_b64decode; `none` is a binascii.Error.
  pub b64encode : String → String
  pub b64decode : String → Option String
  pub b64_law : (s : String) → b64decode (b64encode s) ≡ some s
  -- hashlib.sha256(msgspec.json.encode(payload)).hexdigest()
  pub digest : Json → String
