-- ===== src/Auth/Access.antt =====
-- What a request must carry to get past the guards.
use s1t_python_backend_templ.Base.{
  ◌≡◌, ◌≤◌, ◌+◌, refl, ◌⊎◌, inl, inr, String, Bool, true, false, ◌&&◌, not, List, Option, none,
  some, Result, ok, err, Exec, leb, ◌is◌, arith, subst, if◌then◌else◌, Bool-cases, Option-cases, ap,
}
use s1t_python_backend_templ.Shared.Errors.{Error, port_error}
use s1t_python_backend_templ.Auth.Domain.{Role, unknown, same_role, Principal, Strings}
use s1t_python_backend_templ.Auth.Middleware.{
  Connection, max_token_len, anon, usable, bearer_token, header_token, cookie_token, is_admin_path,
  or_cookie, extract_token, or_anon, authenticate_token, authenticate_request, passes, one_of,
  require_role,
}

module _ (strings : Strings) (bearer_match : String → Option String) where
  module _ {W : Type 0} (authenticate : String → Exec Error W (Option Principal)) where
    abbrev pub Backed : List Role → Option String → W → Principal → W → Type 0
    Backed roles token w p w' =
        (one_of p.role roles ≡ true)
        × ((t : String) × ((token ≡ some t) × (authenticate t w ≡ (ok (some p), w'))))

    passes-one_of :
        (roles : List Role) (p : Principal)
        → require_role roles (some p) ≡ passes
        → (one_of p.role roles ≡ true) × (same_role p.role unknown ≡ false)
    unfolding require_role
    passes-one_of roles p h = grind arith

    from_anon :
        {x : Result Error (Option Principal) × W} {p : Principal} {w1 w' : W}
        → ◌≡◌ {A = Result Error Principal × W} (ok anon, w1) (ok p, w')
        → same_role p.role unknown ≡ false
        → x ≡ (ok (some p), w')
    from_anon {p = p} h n =
        let same : ◌≡◌ {A = Result Error Principal} (ok anon) (ok p) = ap (λ y. y.0) h in
        let role : true ≡ same_role p.role unknown =
          ap (λ y. elim y [ ok q ↦ same_role q.role unknown | err e ↦ true ]) same in
        absurd (cc)

    from_authenticate :
        (t : String) (w : W) (x : Result Error (Option Principal) × W) {p : Principal} {w' : W}
        → or_anon strings bearer_match authenticate x ≡ (ok p, w')
        → same_role p.role unknown ≡ false
        → x ≡ (ok (some p), w')
    from_authenticate t w (ok none, w1) h n = from_anon h n
    from_authenticate t w (ok (some q), w1) h n = cc
    from_authenticate t w (err port_error, w1) h n = from_anon h n
    from_authenticate t w (err e, w1) h n = absurd (cc)

    token-Backed :
        (roles : List Role) (token : Option String) (w : W) {p : Principal} {w' : W}
        → authenticate_token strings bearer_match authenticate token w ≡ (ok p, w')
        → one_of p.role roles ≡ true
        → same_role p.role unknown ≡ false
        → Backed roles token w p w'
    token-Backed roles none w {p = p} h one n =
        let got : ◌≡◌ {A = Result Error (Option Principal)} (err port_error) (ok (some p)) =
          ap (λ y. y.0) (from_anon {x = (err port_error, w)} h n) in
        absurd (cc)
    token-Backed roles (some t) w h one n =
        (one, (t, (refl, from_authenticate t w (authenticate t w) h n)))

    -- A request whose principal passes a guard carries a token that authenticates to that
    -- principal, which has one of the guard's roles.
    pub authenticate_request-passes :
        (roles : List Role) (c : Connection) (w : W) (p : Principal) (w' : W)
        → authenticate_request strings bearer_match authenticate c w ≡ (ok p, w')
        → require_role roles (some p) ≡ passes
        → Backed roles (extract_token strings bearer_match c) w p w'
    unfolding authenticate_request
    authenticate_request-passes roles c w p w' h g =
        let (one, n) = passes-one_of roles p g in
        token-Backed roles (extract_token strings bearer_match c) w h one n

  -- What is taken for a token: not empty, and of the cookie only on the admin's paths.
  abbrev pub Extracted : Connection → Option String → Type 0
  Extracted c none = Unit {0}
  Extracted c (some t) =
      ((t is "") ≡ false)
      × ((header_token strings bearer_match c.authorization ≡ some t
            × (strings.len t ≤ max_token_len))
          ⊎ ((is_admin_path strings bearer_match c.path ≡ true)
              × ((cookie : String) × ((c.admin_cookie ≡ some cookie)
                    × ((strings.len cookie ≤ max_token_len) × (strings.strip cookie ≡ t))))))

  some_if :
      {A : Type 0} (b : Bool) (o : Option A) {a : A}
      → (if b then o else none) ≡ some a
      → (b ≡ true) × (o ≡ some a)
  some_if true o h = (refl, h)
  some_if false o h = absurd (cc)

  usable-parts :
      (t : String)
      → usable strings bearer_match t ≡ true
      → ((t is "") ≡ false) × (strings.len t ≤ max_token_len)
  usable-parts t h = ground arith

  usable-some :
      (x t : String)
      → usable strings bearer_match x ≡ true
      → some x ≡ some t
      → usable strings bearer_match t ≡ true
  usable-some x t u e =
      subst (λ o. elim o [ none ↦ true | some y ↦ usable strings bearer_match y ] ≡ true) e u

  bearer_token-usable :
      (o : Option String) (t : String)
      → bearer_token strings bearer_match o ≡ some t
      → usable strings bearer_match t ≡ true
  bearer_token-usable none t h = absurd (cc)
  bearer_token-usable (some group) t h =
      let (u, e) =
        some_if (usable strings bearer_match (strings.strip group)) (some (strings.strip group))
          h in
      usable-some (strings.strip group) t u e

  header_token-usable :
      (a : Option String) (t : String)
      → header_token strings bearer_match a ≡ some t
      → usable strings bearer_match t ≡ true
  header_token-usable none t h = absurd (cc)
  header_token-usable (some header) t h =
      bearer_token-usable (bearer_match header) t
        (some_if (not (header is "") && leb (strings.len header) (max_token_len + 16))
          (bearer_token strings bearer_match (bearer_match header)) h).1

  from_header :
      (c : Connection) (t : String)
      → header_token strings bearer_match c.authorization ≡ some t
      → Extracted c (some t)
  from_header c t h =
      let (present, short) = usable-parts t (header_token-usable c.authorization t h) in
      (present, inl (h, short))

  from_cookie :
      (c : Connection) (o : Option String)
      → is_admin_path strings bearer_match c.path ≡ true
      → c.admin_cookie ≡ o
      → Extracted c (cookie_token strings bearer_match o)
  from_cookie c none a e = tt
  from_cookie c (some cookie) a e = elim (Bool-cases (usable strings bearer_match cookie)) [
    | inr off ↦ rw off tt
    | inl good ↦ elim (Bool-cases (strings.strip cookie is "")) [
      | inl blank ↦ rw (good, blank) tt
      | inr present ↦
          rw (good, present) (present, inr (a, (cookie, (e, ((usable-parts cookie good).1, refl)))))
    ]
  ]

  no_header : (c : Connection) → Extracted c (or_cookie strings bearer_match c none)
  no_header c = elim (Bool-cases (is_admin_path strings bearer_match c.path)) [
    | inl a ↦ rw a (from_cookie c c.admin_cookie a refl)
    | inr off ↦ rw off tt
  ]

  -- _extract_token: a token is not empty; it is the header's and within the maximal length, or,
  -- only under the admin's paths, it is the stripped admin cookie, the cookie within that length.
  pub extract_token-Extracted :
      (c : Connection) → Extracted c (extract_token strings bearer_match c)
  unfolding extract_token
  extract_token-Extracted c =
      elim (Option-cases (header_token strings bearer_match c.authorization)) [
        | inr (t, h) ↦ rw h (from_header c t h)
        | inl h ↦ rw h (no_header c)
      ]
