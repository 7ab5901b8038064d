-- ===== src/Status.antt =====
-- include/nodesetexporter/common/Statuses.h, and how a function of the exporter ends: it hands on a
-- value with a good status, it returns a failing status, or it throws.
use open62541_nodeset_export.Prelude.{
  List, Option, get_elem?, inl, inr, none, refl, some, ℕ, ◌≡◌, ◌⊎◌,
}
use open62541_nodeset_export.Prelude.Int.{pos, ℤ}

pub data Status : Type 0 where
  good fail : Status

pub data SubStatus : Type 0 where
  no_sub : SubStatus
  failed_check_ns0_start_nodes : SubStatus
  empty_node_id_list : SubStatus
  get_aliases_fail : SubStatus
  export_nodes_fail : SubStatus
  get_nodes_data_fail : SubStatus
  get_node_classes_fail : SubStatus
  export_aliases_fail : SubStatus
  end_fail : SubStatus
  begin_fail : SubStatus
  get_namespaces_fail : SubStatus
  export_namespaces_fail : SubStatus

pub record StatusResults : Type 0 where
  pub status : Status
  pub sub_status : SubStatus
  pub reserve_code : ℤ

-- The constructors StatusResults(status) and StatusResults(status, sub_status).
abbrev pub of_status : Status → StatusResults
of_status s = record { status = s; sub_status = no_sub; reserve_code = pos 0 }

abbrev pub of_sub_status : Status → SubStatus → StatusResults
of_sub_status s sub = record { status = s; sub_status = sub; reserve_code = pos 0 }

-- `undefined` stands for what C++ leaves undefined.
pub data Exception : Type 0 where
  runtime_error out_of_range bad_variant_access undefined : Exception

pub data Outcome {ℓ} (A : Type ℓ) : Type ℓ where
  ok : A → Outcome A
  fails : StatusResults → Outcome A
  throws : Exception → Outcome A

-- After a failing call or an exception nothing more is called.
module _ {ℓ κ} {A : Type ℓ} {B : Type κ} where
  infixl 5 ◌>>=◌
  abbrev pub ◌>>=◌ : Outcome A → (A → Outcome B) → Outcome B
  fails s >>= f = fails s
  throws x >>= f = throws x
  ok a >>= f = f a

-- std::vector::at.
abbrev pub or_throw {ℓ} : {A : Type ℓ} → Option A → Exception → Outcome A
or_throw none x = throws x
or_throw (some a) x = ok a

abbrev pub at_index {ℓ} : {A : Type ℓ} → List A → ℕ → Outcome A
at_index xs i = or_throw (get_elem? xs i) out_of_range

pub ok-injective {ℓ} : {A : Type ℓ} {a b : A} → ok a ≡ ok b → a ≡ b
ok-injective h = cc

-- A successful chain, taken apart.
pub >>=-eq-ok {ℓ κ} :
    {A : Type ℓ} {B : Type κ} (call : Outcome A) (next : A → Outcome B) {b : B}
    → call >>= next ≡ ok b
    → (a : A) × (call ≡ ok a) × (next a ≡ ok b)
>>=-eq-ok (fails s) next h = cc
>>=-eq-ok (throws x) next h = cc
>>=-eq-ok (ok a) next h = (a, refl, h)

pub Outcome-cases {ℓ} :
    {A : Type ℓ} (o : Outcome A)
    → ((a : A) × (o ≡ ok a))
      ⊎ ((r : StatusResults) × (o ≡ fails r))
      ⊎ ((x : Exception) × (o ≡ throws x))
Outcome-cases (ok a) = inl (a, refl)
Outcome-cases (fails r) = inr (inl (r, refl))
Outcome-cases (throws x) = inr (inr (x, refl))
