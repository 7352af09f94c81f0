-- ===== src/Access/Closed.antt =====
-- Revoked credentials: all the accounts that hold one are revoked, which every statement keeps.
use forjd.Access.Management.{
  NewAccount, Draws, clashes, insert_account, new_row, create_allowed, names_account, revoke,
  revoke_answer, revoke_allowed,
}
use forjd.Access.Tokens.{mint_opaque_token}
use mathlib.Core.List.{Memᴰ}
use forjd.Prelude.{
  ℕ, ◌+◌, String, ◌≡◌, refl, ap, ◌∙◌, inl, inr, Bool, true, false, not, ◌&&◌, ◌||◌, Option, none,
  some, List, [], ◌∷◌, ◌++◌, map, arith, ltb, string_eq, nat_eq, ◌==◌, if◌then◌else◌, Bool-cases,
  is_none, coalesce, any, find, any-append, any-map_keep, All, All-append, update_row, update,
  All-map, mem-All, mem-of-any, any-of-mem, mem-of-find,
}
use forjd.Access.Principals.{Result, returned, raised, is_text}
use forjd.Access.Accounts.{ServiceAccount, Registry, touch_last_used, is_usable}

-- Some account holds a credential, and all that hold it are revoked. `column` is one of the two unique
-- columns that callers are found by.
module _ (column : ServiceAccount → Option String) (k : String) where
  abbrev pub holds : ServiceAccount → Bool
  holds a = is_text (column a) k

  abbrev pub is_closed : ServiceAccount → Bool
  is_closed a = not (holds a) || not (is_none a.revoked_at)

  abbrev pub IsClosed : List ServiceAccount → Type 0
  IsClosed l = (any holds l ≡ true) × All (λ a. is_closed a ≡ true) l

  abbrev pub Closed : Registry → Type 0
  Closed r = IsClosed r.accounts

  -- `UNIQUE`: no two rows hold the credential.
  abbrev pub IsHeldOnce : List ServiceAccount → Type 0
  IsHeldOnce l =
      (x y : ServiceAccount) → Memᴰ x l → Memᴰ y l → holds x ≡ true → holds y ≡ true → x ≡ y

  pub closed_is_unusable :
      (l : List ServiceAccount) {a : ServiceAccount}
      → IsClosed l
      → find holds l ≡ some a
      → is_usable a ≡ false
  closed_is_unusable l h found =
      let (inside, mine) = mem-of-find holds l found in
      let closed = mem-All (λ b. is_closed b ≡ true) h.1 inside in ground (arith, mine, closed)

  module _ (f : ServiceAccount → ServiceAccount)
      (kept : (a : ServiceAccount) → column (f a) ≡ column a)
      (shut : (a : ServiceAccount)
        → is_none a.revoked_at ≡ false
        → is_none (f a).revoked_at ≡ false) where
    IsClosed-map : (l : List ServiceAccount) → IsClosed l → IsClosed (map f l)
    IsClosed-map l h = (
      any-map_keep holds f (λ a. ap (λ c. is_text c k) (kept a)) l ∙ h.0,
      All-map (λ a. is_closed a ≡ true) f
          (λ a c. ground (arith, c, ap (λ o. is_text o k) (kept a), shut a)) l h.1,
    )

  IsClosed-append :
      (l : List ServiceAccount) (a : ServiceAccount)
      → holds a ≡ false
      → IsClosed l
      → IsClosed (l ++ a ∷ [])
  IsClosed-append l a other h = (
    ground (arith, any-append holds l (a ∷ []), h.0),
    All-append (λ b. is_closed b ≡ true) l (a ∷ []) h.1 (ground (arith, other), tt),
  )

pub coalesce-is_none : (o : Option ℕ) (d : ℕ) → is_none (coalesce o d) ≡ false
coalesce-is_none none d = refl
coalesce-is_none (some t) d = refl

abbrev pub used : ℕ → ServiceAccount → ServiceAccount
used now a = record a { last_used_at = some now }

module _ (column : ServiceAccount → Option String) (k : String)
    (kept_revoke : (now : ℕ) (a : ServiceAccount) → column (revoke now a) ≡ column a)
    (kept_used : (now : ℕ) (a : ServiceAccount) → column (used now a) ≡ column a)
    (unique : (a b : ServiceAccount)
      → holds column k a ≡ true
      → holds column k b ≡ true
      → clashes a b ≡ true) where
  module _ (matches : ServiceAccount → Bool) (change : ServiceAccount → ServiceAccount)
      (kept : (a : ServiceAccount) → column (change a) ≡ column a)
      (shut : (a : ServiceAccount)
        → is_none a.revoked_at ≡ false
        → is_none (change a).revoked_at ≡ false) where
    pub kept_row : (t : Bool) (a : ServiceAccount) → column (if t then change a else a) ≡ column a
    kept_row true a = kept a
    kept_row false a = refl

    shut_row :
        (t : Bool) (a : ServiceAccount)
        → is_none a.revoked_at ≡ false
        → is_none (if t then change a else a).revoked_at ≡ false
    shut_row true a h = shut a h
    shut_row false a h = h

    IsClosed-update :
        (l : List ServiceAccount)
        → IsClosed column k l
        → IsClosed column k (update matches change l)
    IsClosed-update =
        IsClosed-map column k (update_row matches change) (λ a. kept_row (matches a) a)
          (λ a. shut_row (matches a) a)

  no_second :
      (a : ServiceAccount) (l : List ServiceAccount)
      → any (holds column k) l ≡ true
      → any (clashes a) l ≡ false
      → holds column k a ≡ false
  no_second a l held free = elim (Bool-cases (holds column k a)) [
    | inl e ↦
        let (b, inside, mine) = mem-of-any (holds column k) l held in
        let clash = any-of-mem (clashes a) inside (unique a b e mine) in ground arith
    | inr e ↦ e
  ]

  Closed-insert_account :
      (a : ServiceAccount) (token : Option String) (r : Registry)
      → Closed column k r
      → Closed column k (insert_account a token r).0
  Closed-insert_account a token r h = elim (Bool-cases (any (clashes a) r.accounts)) [
    | inl e ↦ rw e h
    | inr e ↦ rw e (IsClosed-append column k r.accounts a (no_second a r.accounts h.0 e) h)
  ]

  pub Closed-create_allowed :
      (hash : String → String) (tenant_id : String) (asked : NewAccount) (draws : Draws)
      (r : Registry) (allowed : Result (List String))
      → Closed column k r
      → Closed column k (create_allowed hash tenant_id asked draws r allowed).0
  Closed-create_allowed hash tenant_id asked draws r (raised failure) h = h
  Closed-create_allowed hash tenant_id asked draws r (returned scopes) h =
      Closed-insert_account (new_row hash tenant_id asked draws scopes)
        (if asked.mint_opaque_token
          then some (mint_opaque_token draws.prefix draws.secret)
          else none)
        r h

  pub shut_revoke :
      (now : ℕ) (a : ServiceAccount)
      → is_none a.revoked_at ≡ false
      → is_none (revoke now a).revoked_at ≡ false
  shut_revoke now a h = coalesce-is_none a.revoked_at now

  Closed-revoke_answer :
      (id : String) (r : Registry) (rows : List ServiceAccount) (o : Option ServiceAccount)
      → Closed column k r
      → IsClosed column k rows
      → Closed column k (revoke_answer id r rows o).0
  Closed-revoke_answer id r rows none h g = h
  Closed-revoke_answer id r rows (some a) h g = g

  pub Closed-revoke_allowed :
      (now : ℕ) (tenant_id id : String) (r : Registry) (allowed : Result String)
      → Closed column k r
      → Closed column k (revoke_allowed now tenant_id id r allowed).0
  Closed-revoke_allowed now tenant_id id r (raised failure) h = h
  Closed-revoke_allowed now tenant_id id r (returned role) h =
      let rows = update (names_account id tenant_id) (revoke now) r.accounts in
      Closed-revoke_answer id r rows (find (names_account id tenant_id) rows) h (
        IsClosed-update (names_account id tenant_id) (revoke now) (kept_revoke now)
          (shut_revoke now) r.accounts h)

  pub Closed-touch :
      (now : ℕ) (id : String) (r : Registry)
      → Closed column k r
      → Closed column k (record r { accounts = touch_last_used now id r.accounts })
  unfolding touch_last_used
  Closed-touch now id r h =
      IsClosed-update
        (λ a. a.id == id && elim a.last_used_at [ none ↦ true | some t ↦ ltb (t + 300) now ])
        (used now) (kept_used now) (λ a s. s) r.accounts h
