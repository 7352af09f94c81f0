-- ===== src/Playbooks/Plan.antt =====
-- `_normalize_action_plan` of backend/app/services/playbooks.py: the frozen action plan of a run.
use Prim.Native.String.{count, slice, ◌++◌ as append}
use forjd.Prelude.{
  ℕ, suc, ◌+◌, ◌/◌, ◌%◌, ◌≤◌, String, ◌≡◌, refl, subst, ap, inl, inr, Bool, false, not, ◌&&◌, ◌||◌,
  Option, none, some, List, [], ◌∷◌, map, arith, ltb, leb, string_eq, nat_eq, ◌==◌, if◌then◌else◌,
  Bool-cases, length, contains, All, first_chars,
}
use forjd.Playbooks.Delivery.{unsigned, Configuration}
use forjd.Playbooks.Results.{PlanEntry, is_webhook}

-- The `playbook_action_id` of an entry: missing or null, a text that `UUID` reads with its canonical
-- form, or another text. Reading the text is the standard library's.
pub data ActionId : Type 0 where
  no_id : ActionId
  uuid : (canonical written : String) → ActionId
  other_text : String → ActionId

abbrev pub written_id : ActionId → Option String
written_id no_id = none
written_id (uuid canonical written) = some written
written_id (other_text written) = some written

-- `str(UUID(str(playbook_action_id)))`, or `None`
abbrev pub canonical_id : ActionId → Option String
canonical_id (uuid canonical written) = some canonical
canonical_id _ = none

-- An entry of the stored snapshot; a key that is missing reads as "" or `none`. Of a configuration
-- only the keys of webhooks are modelled, since the code reads no other.
pub data RawAction : Type 0 where
  not_an_object : RawAction
  object :
      (action_type : String) (plan_key : Option String) (playbook_action_id : ActionId)
      (sort_order : Option ℕ) (configuration : Configuration)
      → RawAction

pub data Snapshot : Type 0 where
  not_a_list : Snapshot
  entries : List RawAction → Snapshot

-- The decimal of an ordinal, below 50.
abbrev decimal_digit : ℕ → String
decimal_digit n = slice "0123456789" n (n + 1)

-- `f"plan:{ordinal}"`
abbrev ordinal_key : ℕ → String
ordinal_key n =
    append "plan:" (
      if ltb n 10
      then decimal_digit n
      else append (decimal_digit (n / 10)) (decimal_digit (n % 10)))

-- `x or y`, where an empty text is falsy
abbrev or_else : Option String → String → String
or_else none y = y
or_else (some x) y = if x == "" then y else x

-- `raw.get("key") or raw.get("playbook_action_id") or f"plan:{ordinal}"`
unfoldable pub plan_key_of : ℕ → Option String → Option String → String
plan_key_of ordinal plan_key playbook_action_id =
    or_else plan_key (or_else playbook_action_id (ordinal_key ordinal))

-- `int(raw.get("sort_order", ordinal))`
abbrev pub sort_order_of : ℕ → Option ℕ → ℕ
sort_order_of ordinal none = ordinal
sort_order_of ordinal (some sort_order) = sort_order

abbrev empty_configuration : Configuration
empty_configuration = record { url = ""; secret_ref = unsigned }

-- The keys that `_ACTION_CONFIGURATION_KEYS` allows for the action type.
abbrev pub allowed : String → Configuration → Configuration
allowed action_type configuration =
    if is_webhook action_type then configuration else empty_configuration

unfoldable pub is_refused : List String → String → String → Bool
is_refused seen action_type key =
    action_type == "" || not (leb 1 (count key) && leb (count key) 128) || contains seen key

abbrev with_entry : PlanEntry → Option (List PlanEntry) → Option (List PlanEntry)
with_entry entry none = none
with_entry entry (some plan) = some (entry ∷ plan)

-- The loop, from the ordinal on and past the keys seen.
unfoldable pub normalize_from : ℕ → List String → List RawAction → Option (List PlanEntry)
normalize_from ordinal seen [] = some []
normalize_from ordinal seen (not_an_object ∷ rest) = none
normalize_from ordinal seen (object raw_type plan_key action_id sort_order configuration ∷ rest) =
    let action_type = first_chars 64 raw_type in
    let key = plan_key_of ordinal plan_key (written_id action_id) in
    let normalized = normalize_from (suc ordinal) (key ∷ seen) rest in
    if is_refused seen action_type key
    then none
    else with_entry
        (record {
          key = key;
          playbook_action_id = canonical_id action_id;
          action_type = action_type;
          sort_order = sort_order_of ordinal sort_order;
          configuration = allowed action_type configuration;
        })
        normalized

-- `_normalize_action_plan`; `none` is the 409.
unfoldable pub normalize_action_plan : Snapshot → Option (List PlanEntry)
unfolding normalize_from is_refused plan_key_of first_chars
normalize_action_plan not_a_list = none
normalize_action_plan (entries raw) = if ltb 50 (length raw) then none else normalize_from 0 [] raw

abbrev pub id_field : Option String → ActionId
id_field none = no_id
id_field (some canonical) = uuid canonical canonical

-- The snapshot that a run stores; a canonical UUID reads as itself.
abbrev pub raw_of : PlanEntry → RawAction
raw_of a =
    object a.action_type (some a.key) (id_field a.playbook_action_id) (some a.sort_order)
      a.configuration

abbrev pub stored : List PlanEntry → Snapshot
stored plan = entries (map raw_of plan)

-- `key in seen` never holds for two entries of a normalized plan.
abbrev pub HasDistinctKeys : List PlanEntry → Type 0
HasDistinctKeys [] = Unit
HasDistinctKeys (a ∷ rest) = All (λ b. (a.key == b.key) ≡ false) rest × HasDistinctKeys rest

abbrev pub Holds : (List PlanEntry → Type 0) → Option (List PlanEntry) → Type 0
Holds P none = Unit
Holds P (some plan) = P plan

pub with_entry-Holds :
    (P Q : List PlanEntry → Type 0) (entry : PlanEntry)
    → ((plan : List PlanEntry) → P plan → Q (entry ∷ plan))
    → (o : Option (List PlanEntry)) → Holds P o
    → Holds Q (with_entry entry o)
with_entry-Holds P Q entry f none h = tt
with_entry-Holds P Q entry f (some plan) h = f plan h

abbrev pub IsBounded : PlanEntry → Type 0
IsBounded a = (1 ≤ count a.key) × (count a.key ≤ 128) × ((a.action_type == "") ≡ false)

-- What the loop guarantees of the rest of a plan.
pub record IsPlan (seen : List String) (raw : List RawAction) (plan : List PlanEntry) : Type 0 where
  pub new_keys : All (λ a. contains seen a.key ≡ false) plan
  pub distinct_keys : HasDistinctKeys plan
  pub bounded : All IsBounded plan
  pub same_length : length plan ≡ length raw

split_seen :
    (key : String) (seen : List String) (plan : List PlanEntry)
    → All (λ a. contains (key ∷ seen) a.key ≡ false) plan
    → All (λ a. contains seen a.key ≡ false) plan × All (λ b. (key == b.key) ≡ false) plan
split_seen key seen [] h = (tt, tt)
split_seen key seen (a ∷ rest) h = ground (arith, split_seen key seen rest)

IsPlan-cons :
    (seen : List String) (raw : List RawAction) (r : RawAction) (entry : PlanEntry)
    → is_refused seen entry.action_type entry.key ≡ false
    → (plan : List PlanEntry) → IsPlan (entry.key ∷ seen) raw plan
    → IsPlan seen (r ∷ raw) (entry ∷ plan)
unfolding is_refused
IsPlan-cons seen raw r entry passed plan h =
    let (old, apart) = split_seen entry.key seen plan h.new_keys in
    record {
      new_keys = (ground arith, old);
      distinct_keys = (apart, h.distinct_keys);
      bounded = (ground arith, h.bounded);
      same_length = ap suc h.same_length;
    }

normalize_from-IsPlan :
    (ordinal : ℕ) (seen : List String) (raw : List RawAction)
    → Holds (IsPlan seen raw) (normalize_from ordinal seen raw)
unfolding normalize_from
normalize_from-IsPlan ordinal seen [] = record {
  new_keys = tt;
  distinct_keys = tt;
  bounded = tt;
  same_length = refl;
}
normalize_from-IsPlan ordinal seen (not_an_object ∷ rest) = tt
normalize_from-IsPlan ordinal seen (object t k p n c ∷ rest) =
    let key = plan_key_of ordinal k (written_id p) in
    elim (Bool-cases (is_refused seen (first_chars 64 t) key)) [
      | inl e ↦ rw e tt
      | inr e ↦ rw e (
          with_entry-Holds (IsPlan (key ∷ seen) rest) (IsPlan seen (object t k p n c ∷ rest)) _
            (IsPlan-cons seen rest (object t k p n c) _ e)
            (normalize_from (suc ordinal) (key ∷ seen) rest)
            (normalize_from-IsPlan (suc ordinal) (key ∷ seen) rest))
    ]

-- A plan that is accepted has an entry for each of the at most 50 in the snapshot; its keys are
-- distinct and of 1 to 128 characters, and no action type is empty.
pub normalize-IsPlan :
    (raw : List RawAction) (plan : List PlanEntry)
    → normalize_action_plan (entries raw) ≡ some plan
    → HasDistinctKeys plan × All IsBounded plan × (length plan ≡ length raw) × (length raw ≤ 50)
unfolding normalize_action_plan
normalize-IsPlan raw plan e = elim (Bool-cases (ltb 50 (length raw))) [
  | inl long ↦ ground arith
  | inr short ↦
      let h = subst (Holds (IsPlan [] raw)) (rw short at e) (normalize_from-IsPlan 0 [] raw) in
      (h.distinct_keys, h.bounded, h.same_length, ground arith)
]
