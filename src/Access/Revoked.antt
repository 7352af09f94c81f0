-- ===== src/Access/Revoked.antt =====
-- A revoked credential stays refused.

use forjd.Prelude.{
  ℕ, String, ◌≡◌, refl, sym, subst, ap, ◌∙◌, inl, inr, Bool, true, false, Option, none, some, List,
  map, arith, if◌then◌else◌, Bool-cases, is_none, find, update_row, update, All-of-mem, mem-of-map,
  any-of-mem, mem-of-find,
}
use forjd.Access.Principals.{Result, returned, raised, is_text}
use forjd.Access.Accounts.{ServiceAccount, Registry}
use forjd.Access.Management.{
  clashes, may_manage, may_create, create_service_account, names_account, revoke, revoke_answer,
  revoke_allowed, revoke_service_account,
}
use forjd.Access.Bearer.{Claims}
use forjd.Access.History.{
  Step, creates, revokes, calls, Reach, here, next, keep-authenticate_bearer,
}
use forjd.Access.Closed.{
  holds, is_closed, IsClosed, Closed, IsHeldOnce, coalesce-is_none, used, kept_row,
  Closed-create_allowed, shut_revoke, Closed-revoke_allowed, Closed-touch,
}

abbrev account_or : ServiceAccount → Result ServiceAccount → ServiceAccount
account_or a (returned b) = b
account_or a (raised failure) = a

module _ (column : ServiceAccount → Option String) (k : String)
    (kept_revoke : (now : ℕ) (a : ServiceAccount) → column (revoke now a) ≡ column a)
    (kept_used : (now : ℕ) (a : ServiceAccount) → column (used now a) ≡ column a)
    (unique : (a b : ServiceAccount)
      → holds column k a ≡ true
      → holds column k b ≡ true
      → clashes a b ≡ true) where
  module _ (hash : String → String) (verified : String → Option Claims) (configured : Bool) where
    Closed-Step :
        {r u : Registry} → Closed column k r → Step hash verified configured r u → Closed column k u
    unfolding create_service_account revoke_service_account
    Closed-Step {r} h (creates principal tenant_id asked draws e) =
        subst (Closed column k) (sym e) (
          Closed-create_allowed column k kept_revoke kept_used unique hash tenant_id asked draws r
            (may_create r principal tenant_id asked) h)
    Closed-Step {r} h (revokes now principal tenant_id id e) = subst (Closed column k) (sym e) (
        Closed-revoke_allowed column k kept_revoke kept_used unique now tenant_id id r
          (may_manage r principal tenant_id) h)
    Closed-Step {r} h (calls now request token e) = subst (Closed column k) (sym e) (
        keep-authenticate_bearer (Closed column k) r h
          (λ now id. Closed-touch column k kept_revoke kept_used unique now id r h) hash verified
          configured now request token)

    pub Closed-Reach :
        {r u : Registry}
        → Closed column k r
        → Reach hash verified configured r u
        → Closed column k u
    Closed-Reach h here = h
    Closed-Reach h (next past step) = Closed-Step (Closed-Reach h past) step

  module _ (now : ℕ) (tenant_id id : String) (l : List ServiceAccount)
      (once : IsHeldOnce column k l) where
    named_row :
        (y : ServiceAccount)
        → names_account id tenant_id (update_row (names_account id tenant_id) (revoke now) y) ≡ true
        → update_row (names_account id tenant_id) (revoke now) y ≡ revoke now y
    named_row y h = elim (Bool-cases (names_account id tenant_id y)) [
      | inl e ↦ ap (λ t. if t then revoke now y else y) e
      | inr e ↦
          let unchanged : (if names_account id tenant_id y then revoke now y else y) ≡ y =
            ap (λ t. if t then revoke now y else y) e in
          let bad : names_account id tenant_id y ≡ true =
            sym (ap (names_account id tenant_id) unchanged) ∙ h in
          ground arith
    ]

    abbrev changed : ServiceAccount → ServiceAccount
    changed = update_row (names_account id tenant_id) (revoke now)

    holds_before :
        (x y : ServiceAccount) → x ≡ changed y → holds column k x ≡ true → holds column k y ≡ true
    holds_before x y e h =
        sym (
          ap (λ o. is_text o k)
            (ap column e
              ∙ kept_row column k kept_revoke kept_used unique (names_account id tenant_id)
                  (revoke now) (kept_revoke now)
                  (shut_revoke column k kept_revoke kept_used unique now)
                  (names_account id tenant_id y) y))
        ∙ h

    IsClosed-revoked :
        {a : ServiceAccount}
        → find (names_account id tenant_id) (map changed l) ≡ some a
        → holds column k a ≡ true
        → IsClosed column k (map changed l)
    IsClosed-revoked {a} found mine =
        let (inside, named) = mem-of-find (names_account id tenant_id) (map changed l) found in
        let (y, in_l, from_y) = mem-of-map changed l inside in
        let is_revoked : changed y ≡ revoke now y =
          named_row y (ap (names_account id tenant_id) (sym from_y) ∙ named) in
        (
          any-of-mem (holds column k) inside mine,
          All-of-mem (λ b. is_closed column k b ≡ true) (map changed l)
              λ x x_inside. elim (Bool-cases (holds column k x)) [
                | inl e ↦
                    let (z, z_in_l, from_z) = mem-of-map changed l x_inside in
                    let same : z ≡ y =
                      once z y z_in_l in_l (holds_before x z from_z e)
                        (holds_before a y from_y mine) in
                    let end : x ≡ revoke now y = from_z ∙ ap changed same ∙ is_revoked in
                    let shut : is_none x.revoked_at ≡ false =
                      ap (λ b. is_none b.revoked_at) end ∙ coalesce-is_none y.revoked_at now in
                    ground arith
                | inr e ↦ ground arith
              ],
        )

  answer_from :
      (now : ℕ) (tenant_id id : String) (r after : Registry) (account : ServiceAccount)
      (found : Option ServiceAccount)
      → IsHeldOnce column k r.accounts
      → find
          (names_account id tenant_id)
          (update (names_account id tenant_id) (revoke now) r.accounts)
        ≡ found
      → revoke_answer id r (update (names_account id tenant_id) (revoke now) r.accounts) found
        ≡ (after, returned account)
      → holds column k account ≡ true
      → Closed column k after
  answer_from now tenant_id id r after account none once found h mine =
      let bad = ap (λ p. p.1) h in cc
  answer_from now tenant_id id r after account (some a) once found h mine =
      let same : a ≡ account = ap (λ p. account_or a p.1) h in
      subst (IsClosed column k) (ap (λ p. p.0.accounts) h)
        (IsClosed-revoked now tenant_id id r.accounts once found (ap (holds column k) same ∙ mine))

  pub revoked_from :
      (now : ℕ) (tenant_id id : String) (r after : Registry) (account : ServiceAccount)
      (allowed : Result String)
      → IsHeldOnce column k r.accounts
      → revoke_allowed now tenant_id id r allowed ≡ (after, returned account)
      → holds column k account ≡ true
      → Closed column k after
  revoked_from now tenant_id id r after account (raised failure) once h mine =
      let bad = ap (λ p. p.1) h in cc
  revoked_from now tenant_id id r after account (returned role) once h mine =
      answer_from now tenant_id id r after account
        (find (names_account id tenant_id)
          (update (names_account id tenant_id) (revoke now) r.accounts))
        once refl h mine
