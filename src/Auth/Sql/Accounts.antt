-- ===== src/Auth/Sql/Accounts.antt =====
-- The table of accounts: one active account for each e-mail, through every statement.
use s1t_python_backend_templ.Base.{
  subst, ℕ, ◌≡◌, refl, ◌⊎◌, inl, inr, ◌&&◌, Bool, true, false, Bool-cases, String, List, [], ◌∷◌,
  Option, none, some, ok, err, any, ◌==◌, if◌then◌else◌, arith, ◌is◌, eq_iff,
}
use s1t_python_backend_templ.Shared.Errors.{integrity_error}
use s1t_python_backend_templ.Shared.Sql.{update_where, scalar_one_or_none, select_where}
use s1t_python_backend_templ.Shared.Transactions.{script_bind}
use s1t_python_backend_templ.Auth.Domain.{Role}
use s1t_python_backend_templ.Auth.Sql.{
  UserRow, Tables, is_null, has_email, has_user_id, user_row, insert_user, insert_outbox,
  delete_user,
}

-- No two active accounts have one e-mail.
abbrev pub IsUnique : List UserRow → Type 0
IsUnique [] = Unit {0}
IsUnique (r ∷ rs) = ((is_null r.deleted_at && any (has_email r.email) rs) ≡ false) × IsUnique rs

-- Marking a row deleted.
abbrev pub deleted_at : ℕ → UserRow → UserRow
deleted_at at r = record r { deleted_at = some at; updated_at = at }

-- What the code does to the table of accounts.
pub data Step {Payload : Type 0} : Tables Payload → Tables Payload → Type 0 where
  insert :
      {t t' : Tables Payload} (i : ℕ) (email password_hash : String) (role : Role) (now : ℕ)
      → insert_user i email password_hash role now t ≡ ok (tt, t')
      → Step t t'
  message :
      {t t' : Tables Payload} (i : ℕ) (event_type : String) (payload : Payload) (now : ℕ)
      → insert_outbox i event_type payload now t ≡ ok (tt, t')
      → Step t t'
  delete : {t t' : Tables Payload} (i now n : ℕ) → delete_user i now t ≡ ok (n, t') → Step t t'

pub data Reach {Payload : Type 0} (s : Tables Payload) : Tables Payload → Type 0 where
  here : Reach s s
  next : {t u : Tables Payload} → Reach s t → Step t u → Reach s u

-- A deletion brings no e-mail back.
deleted-any :
    (email : String) (i at : ℕ) (rows : List UserRow)
    → any (has_email email) rows ≡ false
    → any (has_email email) (update_where (has_user_id i) (deleted_at at) rows) ≡ false
deleted-any email i at [] h = refl
deleted-any email i at (r ∷ rs) h = ground (arith, deleted-any email i at rs)

-- An active account, found by its identifier.
abbrev pub find_first : (UserRow → Bool) → List UserRow → Option UserRow
find_first p [] = none
find_first p (r ∷ rs) = let rest = find_first p rs in if p r then some r else rest

none_kept :
    (p : UserRow → Bool) (rows : List UserRow) → any p rows ≡ false → select_where p rows ≡ []
none_kept p [] h = refl
none_kept p (r ∷ rows) h = ground (arith, none_kept p rows)

and-true : (a b : Bool) → (a && b) ≡ true → (a ≡ true) × (b ≡ true)
and-true true b h = (refl, h)
and-true false b h = absurd (cc)

-- The others have not the e-mail of an active account.
only_one :
    (email : String) (r : UserRow) (rows : List UserRow)
    → IsUnique (r ∷ rows)
    → has_email email r ≡ true
    → any (has_email email) rows ≡ false
only_one email r rows u mine =
    let (same, active) = and-true (r.email is email) (is_null r.deleted_at) mine in
    let none_there : any (has_email r.email) rows ≡ false =
      subst (λ b. (b && any (has_email r.email) rows) ≡ false) active u.0 in
    subst (λ e. any (has_email e) rows ≡ false) ((eq_iff r.email email).0 same) none_there

pub one_or_none :
    (email : String) (rows : List UserRow)
    → IsUnique rows
    → scalar_one_or_none (select_where (has_email email) rows)
      ≡ ok (find_first (has_email email) rows)
one_or_none email [] u = refl
one_or_none email (r ∷ rows) u = elim (Bool-cases (has_email email r)) [
  | inl mine ↦ rw (mine, none_kept (has_email email) rows (only_one email r rows u mine)) refl
  | inr other ↦ rw other (one_or_none email rows u.1)
]

abbrev pub has_account : String → ℕ → UserRow → Bool
has_account email i r = has_user_id i r && r.email is email

account-active :
    (email : String) (i : ℕ) (rows : List UserRow)
    → any (has_account email i) rows ≡ true
    → any (has_email email) rows ≡ true
account-active email i [] h = cc
account-active email i (r ∷ rows) h = ground (arith, account-active email i rows)

not_first :
    (email : String) (r : UserRow) (rows : List UserRow)
    → IsUnique (r ∷ rows)
    → any (has_email email) rows ≡ true
    → has_email email r ≡ false
not_first email r rows u h = elim (Bool-cases (has_email email r)) [
  | inl mine ↦ absurd (cc (only_one email r rows u mine))
  | inr other ↦ other
]

-- A deactivated account no longer has its e-mail.
head_freed :
    (email : String) (i at : ℕ) (r : UserRow)
    → (has_user_id i r ≡ true) ⊎ (has_email email r ≡ false)
    → has_email email (if has_user_id i r then deleted_at at r else r) ≡ false
head_freed email i at r (inl mine) = rw mine (ground arith)
head_freed email i at r (inr other) = ground arith

-- Deactivating the account that has an e-mail frees the e-mail.
pub freed :
    (email : String) (i at : ℕ) (rows : List UserRow)
    → IsUnique rows
    → any (has_account email i) rows ≡ true
    → any (has_email email) (update_where (has_user_id i) (deleted_at at) rows) ≡ false
freed email i at [] u h = absurd (cc)
freed email i at (r ∷ rows) u h = elim (Bool-cases (has_account email i r)) [
  | inl mine ↦
      let (found, same) = and-true (has_user_id i r) (r.email is email) mine in
      let active = and-true (r.id == i) (is_null r.deleted_at) found in
      let it : has_email email r ≡ true = rw (same, active.1) refl in
      rw (head_freed email i at r (inl found))
        (deleted-any email i at rows (only_one email r rows u it))
  | inr other ↦
      let rest : any (has_account email i) rows ≡ true = rw other at h in
      rw
        (head_freed email i at r
          (inr (not_first email r rows u (account-active email i rows rest))))
        (freed email i at rows u.1 rest)
]

-- Deactivating changes no identifier.
deleted-ids :
    (j i at : ℕ) (rows : List UserRow)
    → any (λ (r : UserRow). r.id == j) rows ≡ false
    → any (λ (r : UserRow). r.id == j) (update_where (has_user_id i) (deleted_at at) rows) ≡ false
deleted-ids j i at [] h = refl
deleted-ids j i at (r ∷ rows) h = ground (arith, deleted-ids j i at rows)

module _ {Payload : Type 0} (t : Tables Payload) (i j : ℕ) (email password_hash : String)
    (role : Role) (now : ℕ) where
  taken :
      any (has_email email) t.users ≡ true
      → insert_user j email password_hash role now t ≡ err integrity_error
  unfolding insert_user
  taken h = elim (Bool-cases (any (λ (r : UserRow). r.id == j) t.users)) [
    | inl there ↦ rw there refl
    | inr free ↦ rw (free, h) refl
  ]

  -- An e-mail of an active account cannot be registered again before the account is deactivated,
  -- and can be registered in a transaction that deactivates it first.
  pub insert-delete :
      IsUnique t.users
      → any (has_account email i) t.users ≡ true
      → any (λ (r : UserRow). r.id == j) t.users ≡ false
      → (insert_user j email password_hash role now t ≡ err integrity_error)
        × (script_bind (delete_user i) (λ _. insert_user j email password_hash role) now t
            ≡ ok (
              tt,
              record t {
                users =
                    user_row j email password_hash role now
                    ∷ update_where (has_user_id i) (deleted_at now) t.users;
              },
            ))
  unfolding delete_user
  insert-delete u h new = (
    taken (account-active email i t.users h),
    unfold insert_user in rw (deleted-ids j i now t.users new, freed email i now t.users u h) refl,
  )
