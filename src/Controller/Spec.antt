-- ===== src/Controller/Spec.antt =====
-- cloud_native_entry_task/controllers/internal/controller/spec.go: reading the spec of a resource.
use cloud_native_entry_task.Prelude.{
  ◌-◌, ◌%◌, ◌^◌, Bool, ◌&&◌, Option, none, some, List, [], ◌∷◌, Bytes, String, ltb, if◌then◌else◌,
  is_empty,
}
use cloud_native_entry_task.Prelude.Int.{ℤ, pos, negsuc, leb_ℤ}
use cloud_native_entry_task.GoLib.Errors.{Error, external, Result, ok, err}
use cloud_native_entry_task.Controller.Client.{Unstructured, ObjectReader, ResourceRequirements}

pub record EntryConfig : Type 0 where
  pub target_db : Bytes
  pub target_redis : Bytes
  pub service_export_port : ℤ

pub record EntryService (Q : Type 0) : Type 0 where
  pub image : Bytes
  pub replicas : ℤ
  pub resources : ResourceRequirements Q

pub record EntrySpec (Q : Type 0) : Type 0 where
  pub config : EntryConfig
  pub service : EntryService Q

abbrev pub target_db_required : Error
target_db_required = external 40

abbrev pub target_redis_required : Error
target_redis_required = external 41

abbrev pub bad_port : Error
bad_port = external 42

abbrev pub image_required : Error
image_required = external 43

abbrev pub bad_replicas : Error
bad_replicas = external 44

-- The error of a quantity, told with the name of its field.
abbrev pub bad_quantity : Error
bad_quantity = external 45

-- `int32(n)`, which keeps the low 32 bits.
unfoldable pub int32 : ℤ → ℤ
int32 (pos n) = let m = n % 2 ^ 32 in if ltb m (2 ^ 31) then pos m else negsuc (2 ^ 32 - 1 - m)
int32 (negsuc n) = let m = n % 2 ^ 32 in if ltb m (2 ^ 31) then negsuc m else pos (2 ^ 32 - 1 - m)

infixl 5 ◌>>=◌
unfoldable pub ◌>>=◌ : {A B : Type 0} → Result A → (A → Result B) → Result B
ok a >>= f = f a
err e >>= f = err e

-- A text that must be there, and not be empty.
unfoldable pub required_text : Error → Result (Option Bytes) → Result Bytes
required_text e (ok (some text)) = if is_empty text then err e else ok text
required_text e _ = err e

-- A number that must be there, and within bounds.
unfoldable pub required_number : Error → (ℤ → Bool) → Result (Option ℤ) → Result ℤ
required_number e within (ok (some n)) = if within n then ok n else err e
required_number e within _ = err e

abbrev pub is_port : ℤ → Bool
is_port n = leb_ℤ (pos 1) n && leb_ℤ n (pos 65535)

abbrev pub is_positive : ℤ → Bool
is_positive n = leb_ℤ (pos 1) n

module _ {O Q : Type 0} (reader : ObjectReader O Q) where
  unfoldable pub parse_quantities : List (Bytes × Bytes) → Result (List (Bytes × Q))
  parse_quantities [] = ok []
  parse_quantities ((name, value) ∷ values) = elim (reader.parse_quantity value) [
    | err e ↦ err bad_quantity
    | ok quantity ↦ (do rest ← parse_quantities values; ok ((name, quantity) ∷ rest))
  ]

  abbrev some_quantities : List (Bytes × Q) → Result (Option (List (Bytes × Q)))
  some_quantities quantities = ok (some quantities)

  unfoldable pub quantities_of : Option (List (Bytes × Bytes)) → Result (Option (List (Bytes × Q)))
  quantities_of none = ok none
  quantities_of (some values) = parse_quantities values >>= some_quantities

  unfoldable pub parse_resource_list : Unstructured O → String → Result (Option (List (Bytes × Q)))
  parse_resource_list cr field = do
    values ← reader.nested_string_map cr.object ("spec" ∷ "service" ∷ "resources" ∷ field ∷ [])
    quantities_of values

  unfoldable pub parse_resources : Unstructured O → Result (ResourceRequirements Q)
  parse_resources cr = do
    requests ← parse_resource_list cr "requests"
    limits ← parse_resource_list cr "limits"
    ok (record { requests = requests; limits = limits })

  unfoldable pub parse_spec : Unstructured O → Result (EntrySpec Q)
  parse_spec cr = do
    target_db ←
        required_text target_db_required
          (reader.nested_string cr.object ("spec" ∷ "config" ∷ "targetDB" ∷ []))
    target_redis ←
        required_text target_redis_required
          (reader.nested_string cr.object ("spec" ∷ "config" ∷ "targetRedis" ∷ []))
    port ←
        required_number bad_port is_port
          (reader.nested_int64 cr.object ("spec" ∷ "config" ∷ "serviceExportPort" ∷ []))
    image ←
        required_text image_required
          (reader.nested_string cr.object ("spec" ∷ "service" ∷ "image" ∷ []))
    replicas ←
        required_number bad_replicas is_positive
          (reader.nested_int64 cr.object ("spec" ∷ "service" ∷ "replicas" ∷ []))
    resources ← parse_resources cr
    ok (record {
      config = record {
        target_db = target_db;
        target_redis = target_redis;
        service_export_port = int32 port;
      };
      service = record { image = image; replicas = int32 replicas; resources = resources };
    })
