-- ===== src/Db/Sample.antt =====
-- A concrete JSON value and a concrete percentage, at which runs and examples are evaluated: the
-- laws of `External` can be met.
use vexa_vm.Common.{
  ℕ, ◌≡◌, refl, ◌↔◌, String, Bool, true, false, ◌&&◌, Option, none, some, arith, if◌then◌else◌, leb,
  str_eq, eq_iff, eq_refl, Bool-cases, inl, inr,
}
use vexa_vm.Db.External.{External}

-- An object is a chain of members that ends in `empty`; the first member of a name counts.
pub data Json : Type 0 where
  null : Json
  text : String → Json
  empty : Json
  member : String → Json → Json → Json

abbrev pub get : Json → String → Option Json
get (member k v rest) j = if str_eq k j then some v else get rest j
get _ j = none

abbrev remove : Json → String → Json
remove (member k v rest) j = let r = remove rest j in if str_eq k j then r else member k v r
remove v j = v

abbrev as_str : Json → Option String
as_str (text s) = some s
as_str _ = none

abbrev is_object : Json → Bool
is_object empty = true
is_object (member k v rest) = is_object rest
is_object _ = false

abbrev beq : Json → Json → Bool
beq null null = true
beq (text s) (text t) = str_eq s t
beq empty empty = true
beq (member j v r) (member k w s) = str_eq j k && beq v w && beq r s
beq _ _ = false

beq_refl : (v : Json) → beq v v ≡ true
beq_refl null = refl
beq_refl (text s) = eq_refl s
beq_refl empty = refl
beq_refl (member k v r) = rw (eq_refl k, beq_refl v, beq_refl r) refl

eq_of_beq : (v w : Json) → beq v w ≡ true → v ≡ w
eq_of_beq null null h = refl
eq_of_beq (text s) (text t) h = ground (arith, eq_iff s t)
eq_of_beq empty empty h = refl
eq_of_beq (member j v r) (member k w s) h = ground (arith, eq_iff j k, eq_of_beq v w, eq_of_beq r s)
eq_of_beq _ _ h = cc

pub beq_iff : (v w : Json) → (beq v w ≡ true) ↔ (v ≡ w)
beq_iff v w = (eq_of_beq v w, λ e. rw e (beq_refl w))

pub get-remove : (v : Json) (k : String) → get (remove v k) k ≡ none
get-remove (member j v r) k = elim (Bool-cases (str_eq j k)) [
  | inl e ↦ rw e (get-remove r k)
  | inr e ↦ rw (e, e) (get-remove r k)
]
get-remove null k = refl
get-remove _ k = refl

pub remove_absent : (v : Json) (k : String) → get v k ≡ none → remove v k ≡ v
remove_absent (member j v r) k h = ground (arith, remove_absent r k)
remove_absent null k h = refl
remove_absent _ k h = refl

pub remove-insert :
    (v w : Json) (k : String) → is_object v ≡ true → get v k ≡ none → remove (member k w v) k ≡ v
remove-insert v w k o h = rw (eq_refl k) (remove_absent v k h)

pub get-insert : (v w : Json) (k : String) → is_object v ≡ true → get (member k w v) k ≡ some w
get-insert v w k o = rw (eq_refl k)

abbrev member_text : Json → String → Option String
member_text v k = elim (get v k) [ none ↦ none | some w ↦ as_str w ]

abbrev is_missing : Option Json → Bool
is_missing none = true
is_missing (some null) = true
is_missing (some _) = false

abbrev pub sample : External Json ℕ
sample = record {
  beq = beq;
  get = get;
  as_str = as_str;
  as_bool = λ v. none;
  is_object = is_object;
  text = text;
  insert = λ v k w. member k w v;
  remove = remove;
  json_extract = member_text;
  is_null_member = λ v k. is_missing (get v k);
  zero_percent = 0;
  hundred_percent = 100;
  is_percent = λ p. leb p 100;
  canonical_uuid = some;
  beq_iff = beq_iff;
  get-remove = get-remove;
  remove-insert = remove-insert;
  remove_absent = remove_absent;
  get-insert = get-insert;
}
