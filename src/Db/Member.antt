-- ===== src/Db/Member.antt =====
-- internal/db/groups.go: a member of a group, and its JSON with `omitempty` as jsonb merges it.
use alertory.Prelude.{List, [], ◌∷◌, ◌≡◌, refl, Option, none, some}
use alertory.Text.{Str}
use alertory.Clock.{Time}

pub record MemberField : Type 0 where
  pub title : Str
  pub value : Str

pub record NotifiedTarget : Type 0 where
  pub channel : Str
  pub api_channel : Str
  pub ts : Str

pub record GroupMember : Type 0 where
  pub fingerprint : Str
  pub alertname : Str
  pub status : Str
  pub target : Str
  pub starts_at : Time
  pub ends_at : Option Time
  pub updated_at : Time
  pub display_title : Str
  pub display_fields : List MemberField
  pub notified_targets : List NotifiedTarget
  pub notified_status : Str

-- The JSON object of a member, by the values of its keys: `none` is a key that is absent.
pub record MemberJson : Type 0 where
  pub fingerprint : Option Str
  pub alertname : Option Str
  pub status : Option Str
  pub target : Option Str
  pub starts_at : Option Time
  pub ends_at : Option Time
  pub updated_at : Option Time
  pub display_title : Option Str
  pub display_fields : Option (List MemberField)
  pub notified_targets : Option (List NotifiedTarget)
  pub notified_status : Option Str

-- '{}'::jsonb
abbrev pub empty_object : MemberJson
empty_object = record {
  fingerprint = none;
  alertname = none;
  status = none;
  target = none;
  starts_at = none;
  ends_at = none;
  updated_at = none;
  display_title = none;
  display_fields = none;
  notified_targets = none;
  notified_status = none;
}

-- `omitempty` on a string or a slice.
unfoldable pub omit_empty {ℓ} : {A : Type ℓ} → List A → Option (List A)
omit_empty [] = none
omit_empty (x ∷ xs) = some (x ∷ xs)

-- A key that is absent leaves the zero value.
unfoldable pub or_zero {ℓ} : {A : Type ℓ} → A → Option A → A
or_zero zero_value none = zero_value
or_zero zero_value (some a) = a

-- The right side of `||` wins where it has the key.
unfoldable pub prefer {ℓ} : {A : Type ℓ} → Option A → Option A → Option A
prefer old none = old
prefer old (some a) = some a

-- `json.Marshal(member)`
unfoldable pub marshal : GroupMember → MemberJson
unfolding omit_empty
marshal m = record {
  fingerprint = some m.fingerprint;
  alertname = some m.alertname;
  status = some m.status;
  target = omit_empty m.target;
  starts_at = some m.starts_at;
  ends_at = m.ends_at;
  updated_at = some m.updated_at;
  display_title = omit_empty m.display_title;
  display_fields = omit_empty m.display_fields;
  notified_targets = omit_empty m.notified_targets;
  notified_status = omit_empty m.notified_status;
}

-- `json.Unmarshal` of one member.
unfoldable pub unmarshal : MemberJson → GroupMember
unfolding or_zero
unmarshal j = record {
  fingerprint = or_zero [] j.fingerprint;
  alertname = or_zero [] j.alertname;
  status = or_zero [] j.status;
  target = or_zero [] j.target;
  starts_at = or_zero 0 j.starts_at;
  ends_at = j.ends_at;
  updated_at = or_zero 0 j.updated_at;
  display_title = or_zero [] j.display_title;
  display_fields = or_zero [] j.display_fields;
  notified_targets = or_zero [] j.notified_targets;
  notified_status = or_zero [] j.notified_status;
}

-- The jsonb operator `||` on two member objects.
unfoldable pub concat : MemberJson → MemberJson → MemberJson
unfolding prefer
concat old new = record {
  fingerprint = prefer old.fingerprint new.fingerprint;
  alertname = prefer old.alertname new.alertname;
  status = prefer old.status new.status;
  target = prefer old.target new.target;
  starts_at = prefer old.starts_at new.starts_at;
  ends_at = prefer old.ends_at new.ends_at;
  updated_at = prefer old.updated_at new.updated_at;
  display_title = prefer old.display_title new.display_title;
  display_fields = prefer old.display_fields new.display_fields;
  notified_targets = prefer old.notified_targets new.notified_targets;
  notified_status = prefer old.notified_status new.notified_status;
}

or_zero-omit_empty {ℓ} : {A : Type ℓ} (xs : List A) → or_zero [] (omit_empty xs) ≡ xs
unfolding or_zero omit_empty
or_zero-omit_empty [] = refl
or_zero-omit_empty (x ∷ xs) = refl

-- A member that is written and read back is the same member, with every field.
pub unmarshal-marshal : (m : GroupMember) → unmarshal (marshal m) ≡ m
unfolding unmarshal marshal
unmarshal-marshal m = λ i. record m {
  target = or_zero-omit_empty m.target i;
  display_title = or_zero-omit_empty m.display_title i;
  display_fields = or_zero-omit_empty m.display_fields i;
  notified_targets = or_zero-omit_empty m.notified_targets i;
  notified_status = or_zero-omit_empty m.notified_status i;
}
